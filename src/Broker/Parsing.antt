-- ===== src/Broker/Parsing.antt =====
-- What DecodeBrokerMsg accepts, against the layout of the server's messages that it reads.
use simplex_go.Base.{
  ℕ, ◌+◌, ◌≤◌, ◌<◌, String, ◌≡◌, refl, ap, ap₂, ◌∙◌, ◌≢◌, inl, inr, Bool, false, none, some, [],
  ◌∷◌, ◌++◌, append_assoc, arith, leb, if◌then◌else◌, Bool-cases, length, drop, All, length-append,
  take-append_self, drop-append_self, Bytes, codes, bytes_eq, has_prefix, index_byte,
  length-cons_ne, pure, wrap, ok,
}
use simplex_go.Wire.Decoder
use simplex_go.Wire.Decoder.{Decoder, decode, new_decoder}
use simplex_go.Wire.Reads.{Reads, Reads-pure, Reads-wrap}
use simplex_go.Wire.Exhausts.{Ends->>=, Ends-tail, Ends-decode}
use simplex_go.Wire.Primitives.{short_bytes, bool_bytes, Reads-short_string, Reads-bool}
use simplex_go.Transmission.{version_v9}
use simplex_go.Broker.{
  BrokerMsg, read_ids, decode_ids, message, read_msg, decode_msg, split_err, decode_err,
  decode_broker_msg, ids_msg, msg_msg, ok_msg, pong_msg, end_msg, err_msg,
}

-- No byte of the text is a space.
abbrev pub HasNoSpace : Bytes → Type 0
HasNoSpace = All (λ c. c ≢ b' ')

-- The layout: the bytes that stand for a message at a version. A message of type IDS carries the last
-- flag from version 9 on, and may have more behind it. The ids are of any length up to 255, also
-- those to which SMP gives 24 bytes (of a message) or 16 to 24 (of a queue).
pub data Stands (v : ℕ) : BrokerMsg → Bytes → Type 0 where
  ids :
      (rcv snd dh more : Bytes) (secure : Bool) (bs : Bytes)
      → length rcv ≤ 255
      → length snd ≤ 255
      → length dh ≤ 255
      → (v < 9 → secure ≡ false)
      → bs
        ≡ codes "IDS "
          ++ (short_bytes rcv
              ++ (short_bytes snd
                  ++ (short_bytes dh
                      ++ ((if leb version_v9 v then bool_bytes secure else []) ++ more))))
      → Stands v
          (ids_msg (record {
            recipient_id = rcv;
            sender_id = snd;
            srv_dh_pub_key = dh;
            snd_can_secure = secure;
          }))
          bs
  msg :
      (id body bs : Bytes)
      → length id ≤ 255
      → bs ≡ codes "MSG " ++ (short_bytes id ++ body)
      → Stands v (msg_msg (message id body)) bs
  okay : (bs : Bytes) → bs ≡ codes "OK" → Stands v ok_msg bs
  pong : (bs : Bytes) → bs ≡ codes "PONG" → Stands v pong_msg bs
  end : (bs : Bytes) → bs ≡ codes "END" → Stands v end_msg bs
  err_plain :
      (type bs : Bytes)
      → HasNoSpace type
      → bs ≡ codes "ERR " ++ type
      → Stands v (err_msg type []) bs
  err_detail :
      (type detail bs : Bytes)
      → HasNoSpace type
      → bs ≡ codes "ERR " ++ (type ++ (b' ' ∷ detail))
      → Stands v (err_msg type detail) bs

index_byte-none : (type : Bytes) → HasNoSpace type → index_byte type b' ' ≡ none
unfolding index_byte
index_byte-none [] h = refl
index_byte-none (c ∷ cs) h = ground (arith, index_byte-none cs h.1)

index_byte-some :
    (type detail : Bytes)
    → HasNoSpace type
    → index_byte (type ++ (b' ' ∷ detail)) b' ' ≡ some (length type)
unfolding index_byte
index_byte-some [] detail h = refl
index_byte-some (c ∷ cs) detail h = ground (arith, index_byte-some cs detail h.1)

Reads-ids_flag :
    (v : ℕ) (secure : Bool)
    → (v < 9 → secure ≡ false)
    → Reads
        (if leb version_v9 v then wrap "smp: IDS sndCanSecure" Decoder.bool else pure false)
        (if leb version_v9 v then bool_bytes secure else [])
        secure
Reads-ids_flag v secure h = elim (Bool-cases (leb version_v9 v)) [
  | inl new ↦ rw new (Reads-wrap _ Decoder.bool (bool_bytes secure) secure (Reads-bool secure))
  | inr old ↦ rw (old, h (ground arith)) (Reads-pure false)
]

Reads-short : (c : String) (v : Bytes) → Reads (wrap c Decoder.short_string) (short_bytes v) v
Reads-short c v = Reads-wrap c Decoder.short_string (short_bytes v) v (Reads-short_string v)

decode_ids-format :
    (v : ℕ) (rcv snd dh more : Bytes) (secure : Bool)
    → (v < 9 → secure ≡ false)
    → decode_ids v (
        short_bytes rcv
        ++ (short_bytes snd
            ++ (short_bytes dh ++ ((if leb version_v9 v then bool_bytes secure else []) ++ more))))
      ≡ ok (
          ids_msg (record {
            recipient_id = rcv;
            sender_id = snd;
            srv_dh_pub_key = dh;
            snd_can_secure = secure;
          }))
unfolding decode_ids read_ids
decode_ids-format v rcv snd dh more secure h =
    let whole : BrokerMsg = ids_msg (record {
      recipient_id = rcv;
      sender_id = snd;
      srv_dh_pub_key = dh;
      snd_can_secure = secure;
    }) in
    let flag = if leb version_v9 v then bool_bytes secure else [] in
    Ends-decode (read_ids v) _ whole (
      Ends->>= _ _ (short_bytes rcv) _ rcv whole (Reads-short _ rcv) (
        Ends->>= _ _ (short_bytes snd) _ snd whole (Reads-short _ snd) (
          Ends->>= _ _ (short_bytes dh) _ dh whole (Reads-short _ dh)
            (Ends->>= _ _ flag more secure whole (Reads-ids_flag v secure h) (λ d w e. refl)))))

decode_msg-format :
    (id body : Bytes) → decode_msg (short_bytes id ++ body) ≡ ok (msg_msg (message id body))
unfolding decode_msg read_msg
decode_msg-format id body = Ends-decode read_msg _ (msg_msg (message id body)) (
    Ends->>= _ _ (short_bytes id) body id (msg_msg (message id body)) (Reads-short _ id)
      (Ends-tail _ body))

-- The case of DecodeBrokerMsg that a prefix selects.
case_ids : (v : ℕ) (body : Bytes) → decode_broker_msg v (codes "IDS " ++ body) ≡ decode_ids v body
unfolding decode_broker_msg has_prefix
case_ids v body = rw (length-cons_ne b'I' (codes "DS " ++ body))

case_msg : (v : ℕ) (body : Bytes) → decode_broker_msg v (codes "MSG " ++ body) ≡ decode_msg body
unfolding decode_broker_msg has_prefix
case_msg v body = rw (length-cons_ne b'M' (codes "SG " ++ body))

case_err : (v : ℕ) (body : Bytes) → decode_broker_msg v (codes "ERR " ++ body) ≡ decode_err body
unfolding decode_broker_msg has_prefix bytes_eq
case_err v body = rw (length-cons_ne b'E' (codes "RR " ++ body))

split-err_detail :
    (type detail : Bytes)
    → split_err (type ++ (b' ' ∷ detail)) (some (length type)) ≡ err_msg type detail
split-err_detail type detail =
    let p : length type + 1 ≡ length (type ++ (b' ' ∷ [])) =
      omega (arith, length-append type (b' ' ∷ [])) in
    let rest : drop (length type + 1) (type ++ (b' ' ∷ detail)) ≡ detail =
      rw (p, ← append_assoc type (b' ' ∷ []) detail)
        (drop-append_self (type ++ (b' ' ∷ [])) detail) in
    ap₂ err_msg (take-append_self type (b' ' ∷ detail)) rest

pub decode_broker_msg-Stands :
    (v : ℕ) {m : BrokerMsg} {bs : Bytes} → Stands v m bs → decode_broker_msg v bs ≡ ok m
unfolding decode_err
decode_broker_msg-Stands v (ids rcv snd dh more secure bs h₁ h₂ h₃ h e) =
    ap (decode_broker_msg v) e ∙ case_ids v _ ∙ decode_ids-format v rcv snd dh more secure h
decode_broker_msg-Stands v (msg id body bs h e) =
    ap (decode_broker_msg v) e ∙ case_msg v _ ∙ decode_msg-format id body
decode_broker_msg-Stands v (okay bs e) = rw e (unfold decode_broker_msg has_prefix bytes_eq in refl)
decode_broker_msg-Stands v (pong bs e) = rw e (unfold decode_broker_msg has_prefix bytes_eq in refl)
decode_broker_msg-Stands v (end bs e) = rw e (unfold decode_broker_msg has_prefix bytes_eq in refl)
decode_broker_msg-Stands v (err_plain type bs h e) =
    ap (decode_broker_msg v) e ∙ case_err v type ∙ rw (index_byte-none type h)
decode_broker_msg-Stands v (err_detail type detail bs h e) =
    ap (decode_broker_msg v) e
    ∙ case_err v (type ++ (b' ' ∷ detail))
    ∙ rw (index_byte-some type detail h) (ap ok (split-err_detail type detail))
