-- ===== src/Broker/Accepted.antt =====
-- DecodeBrokerMsg accepts nothing outside the layout of Broker/Parsing.
use mathlib.Core.Option
use simplex_go.Broker.Parsing.{
  HasNoSpace, Stands, ids, msg, okay, pong, end, err_plain, err_detail, decode_broker_msg-Stands,
}
use simplex_go.Base.{
  ℕ, suc, ◌+◌, ◌≤◌, ◌<◌, String, ◌≡◌, refl, sym, ap, ◌∙◌, subst, ◌≢◌, ◌↔◌, inl, inr, Bool, true,
  false, Option, none, some, [], ◌∷◌, ◌++◌, append-nil, append_assoc, arith, leb, ◌==◌,
  if◌then◌else◌, ==_iff, Bool-cases, length, take, drop, All, Bytes, IsByte, codes, bytes_eq,
  has_prefix, index_byte, bytes_eq_iff, All-append_right, has_prefix-split, Result, Op, pure, wrap,
  ◌>>=◌, bad_encoding, sentinel, ok, err,
}
use simplex_go.Wire.Decoder
use simplex_go.Wire.Decoder.{Decoder, decode, new_decoder}
use simplex_go.Wire.Consumes.{Consumes, Consumes->>=, Consumes-pure, Consumes-wrap}
use simplex_go.Wire.Reads.{unread}
use simplex_go.Wire.Exhausts.{Exhausts, Exhausts->>=, Exhausts-tail, Exhausts-decode}
use simplex_go.Wire.Primitives.{short_bytes, bool_bytes}
use simplex_go.Wire.Canonical.{Consumes-short_string, Consumes-bool}
use simplex_go.Transmission.{version_v9}
use simplex_go.Broker.{
  BrokerMsg, read_ids, decode_ids, message, read_msg, decode_msg, split_err, decode_err,
  decode_broker_msg, ids_msg, msg_msg, ok_msg, pong_msg, end_msg,
}

abbrev IsShort : Bytes → Type 0
IsShort x = length x ≤ 255

Consumes-IsShort :
    (c : String) → Consumes (wrap c Decoder.short_string) (λ v bs. (bs ≡ short_bytes v) × IsShort v)
Consumes-IsShort c = Consumes-wrap c Decoder.short_string _ Consumes-short_string

abbrev flag_bytes : ℕ → Bool → Bytes
flag_bytes v secure = if leb version_v9 v then bool_bytes secure else []

-- The flag, and that it is false where it is not sent.
Consumes-flag :
    (v : ℕ)
    → Consumes
        (if leb version_v9 v then wrap "smp: IDS sndCanSecure" Decoder.bool else pure false)
        (λ secure bs. (bs ≡ flag_bytes v secure) × (v < 9 → secure ≡ false))
Consumes-flag v = elim (Bool-cases (leb version_v9 v)) [
  | inl new ↦ rw new (λ d a d' w all e.
      let (bs, u, w', b, p) =
        Consumes-wrap "smp: IDS sndCanSecure" Decoder.bool _ Consumes-bool d a d' w all e in
      (bs, u, w', b, (p, λ h. absurd (ground arith))))
  | inr old ↦
      rw old
        (Consumes-pure false (λ secure bs. (bs ≡ []) × (v < 9 → secure ≡ false)) (refl, λ _. refl))
]

abbrev ids_of : Bytes → Bytes → Bytes → Bool → BrokerMsg
ids_of rcv snd dh secure =
    ids_msg
      (record { recipient_id = rcv; sender_id = snd; srv_dh_pub_key = dh; snd_can_secure = secure })

abbrev FromFlag : ℕ → Bytes → Bytes → Bytes → BrokerMsg → Bytes → Type 0
FromFlag v rcv snd dh m bs =
    (secure : Bool) × (m ≡ ids_of rcv snd dh secure)
    × (v < 9 → secure ≡ false)
    × (bs ≡ flag_bytes v secure)

abbrev FromDh : ℕ → Bytes → Bytes → BrokerMsg → Bytes → Type 0
FromDh v rcv snd m bs =
    (dh : Bytes) × (ds : Bytes) × IsShort dh
    × (bs ≡ short_bytes dh ++ ds)
    × FromFlag v rcv snd dh m ds

abbrev FromSnd : ℕ → Bytes → BrokerMsg → Bytes → Type 0
FromSnd v rcv m bs =
    (snd : Bytes) × (ds : Bytes) × IsShort snd
    × (bs ≡ short_bytes snd ++ ds)
    × FromDh v rcv snd m ds

abbrev FromRcv : ℕ → BrokerMsg → Bytes → Type 0
FromRcv v m bs =
    (rcv : Bytes) × (ds : Bytes) × IsShort rcv × (bs ≡ short_bytes rcv ++ ds) × FromSnd v rcv m ds

-- A short string in front of what `P` describes.
Consumes-behind :
    (c : String) (f : Bytes → Op Decoder BrokerMsg) (P : Bytes → BrokerMsg → Bytes → Type 0)
    → ((x : Bytes) → Consumes (f x) (P x))
    → Consumes
        (wrap c Decoder.short_string >>= f)
        (λ m bs. (x : Bytes) × (ds : Bytes) × IsShort x × (bs ≡ short_bytes x ++ ds) × (P x m ds))
Consumes-behind c f P h =
    Consumes->>= (wrap c Decoder.short_string) f (λ v bs. (bs ≡ short_bytes v) × IsShort v) P
      (λ m bs. (x : Bytes) × (ds : Bytes) × IsShort x × (bs ≡ short_bytes x ++ ds) × (P x m ds))
      (Consumes-IsShort c) h (λ x m bs cs p q. (x, cs, p.1, ap (λ (y : Bytes). y ++ cs) p.0, q))

Consumes-ids : (v : ℕ) → Consumes (read_ids v) (FromRcv v)
unfolding read_ids
Consumes-ids v = Consumes-behind _ _ (FromSnd v) (λ rcv. Consumes-behind _ _ (FromDh v rcv) (λ snd.
    Consumes-behind _ _ (FromFlag v rcv snd) (λ dh.
      Consumes->>= _ _ (λ secure bs. (bs ≡ flag_bytes v secure) × (v < 9 → secure ≡ false))
        (λ secure m bs. (m ≡ ids_of rcv snd dh secure) × (bs ≡ [])) (FromFlag v rcv snd dh)
        (Consumes-flag v)
        (λ secure.
          Consumes-pure (ids_of rcv snd dh secure)
            (λ m bs. (m ≡ ids_of rcv snd dh secure) × (bs ≡ [])) (refl, refl))
        (λ secure m bs cs p q. (secure, q.0, p.1, ap (◌++◌ bs) q.1 ∙ append-nil bs ∙ p.0)))))

accepted_ids :
    (v : ℕ) (body bs : Bytes) (m : BrokerMsg)
    → All IsByte body
    → bs ≡ codes "IDS " ++ body
    → decode_ids v body ≡ ok m
    → Stands v m bs
unfolding decode_ids
accepted_ids v body bs m all e h =
    let d = new_decoder body in
    let r = (read_ids v d).1 in
    let (
      cs,
      u,
      w,
      b,
      (rcv, ds, s₁, e₁, (snd, es, s₂, e₂, (dh, fs, s₃, e₃, (secure, is, old, e₄)))),
    ) =
      Consumes-ids v d m r (omega arith) all (λ i. (h i, r)) in
    let more = unread r in
    let spelled : body
        ≡ short_bytes rcv
          ++ (short_bytes snd ++ (short_bytes dh ++ (flag_bytes v secure ++ more))) =
      u
      ∙ ap (λ (x : Bytes). x ++ more)
          (e₁
            ∙ ap (◌++◌ (short_bytes rcv))
                (e₂ ∙ ap (◌++◌ (short_bytes snd)) (e₃ ∙ ap (◌++◌ (short_bytes dh)) e₄)))
      ∙ simp append_assoc in
    subst (λ (x : BrokerMsg). Stands v x bs) (sym is)
      (ids rcv snd dh more secure bs s₁ s₂ s₃ old (e ∙ ap (◌++◌ (codes "IDS ")) spelled))

accepted_msg :
    (v : ℕ) (body bs : Bytes) (m : BrokerMsg)
    → All IsByte body
    → bs ≡ codes "MSG " ++ body
    → decode_msg body ≡ ok m
    → Stands v m bs
unfolding decode_msg read_msg
accepted_msg v body bs m all e h =
    let (id, ds, s, e₁, is) = Exhausts-decode read_msg FromId from_id body all h in
    subst (λ (x : BrokerMsg). Stands v x bs) (sym is)
      (msg id ds bs s (e ∙ ap (◌++◌ (codes "MSG ")) e₁))
  where
    FromId : BrokerMsg → Bytes → Type 0
    FromId m bs =
        (id : Bytes) × (ds : Bytes) × IsShort id
        × (bs ≡ short_bytes id ++ ds)
        × (m ≡ msg_msg (message id ds))

    from_id : Exhausts read_msg FromId
    from_id =
        Exhausts->>= _ _ (λ v bs. (bs ≡ short_bytes v) × IsShort v)
          (λ id m ds. m ≡ msg_msg (message id ds)) FromId (Consumes-IsShort _)
          (λ id.
            Exhausts-tail (λ ds. msg_msg (message id ds)) (λ m ds. m ≡ msg_msg (message id ds))
              (λ ds. refl))
          (λ id m bs cs p q. (id, cs, p.1, ap (λ (y : Bytes). y ++ cs) p.0, q))

-- What the index of the first space says.
abbrev SplitAt : Bytes → Option ℕ → Type 0
SplitAt body none = HasNoSpace body
SplitAt body (some sp) =
    HasNoSpace (take sp body) × (body ≡ take sp body ++ (b' ' ∷ drop (sp + 1) body))

SplitAt-suc :
    (c : ℕ) (cs : Bytes) (o : Option ℕ)
    → c ≢ b' '
    → SplitAt cs o
    → SplitAt (c ∷ cs) (Option.map suc o)
SplitAt-suc c cs none h s = (h, s)
SplitAt-suc c cs (some sp) h s =
    let p : suc sp + 1 ≡ suc (sp + 1) = omega arith in rw p ((h, s.0), ap (◌∷◌ c) s.1)

index_byte-SplitAt : (body : Bytes) → SplitAt body (index_byte body b' ')
unfolding index_byte
index_byte-SplitAt [] = tt
index_byte-SplitAt (c ∷ cs) = elim (Bool-cases (c == b' ')) [
  | inl space ↦ rw space (tt, ap (λ (x : ℕ). x ∷ cs) ((==_iff c b' ').0 space))
  | inr differs ↦ rw differs (
      SplitAt-suc c cs (index_byte cs b' ') (λ e. cc (differs, (==_iff c b' ').1 e))
        (index_byte-SplitAt cs))
]

accepted_err :
    (v : ℕ) (body bs : Bytes) (o : Option ℕ)
    → bs ≡ codes "ERR " ++ body
    → SplitAt body o
    → Stands v (split_err body o) bs
accepted_err v body bs none e s = err_plain body bs s e
accepted_err v body bs (some sp) e s = err_detail _ _ bs s.0 (e ∙ ap (◌++◌ (codes "ERR ")) s.1)

-- The cases of DecodeBrokerMsg below those of IDS and MSG.
abbrev later_cases : Bytes → Result BrokerMsg
later_cases raw =
    if bytes_eq raw (codes "OK")
    then ok ok_msg
    else if bytes_eq raw (codes "PONG")
    then ok pong_msg
    else if bytes_eq raw (codes "END")
    then ok end_msg
    else if has_prefix raw (codes "ERR ")
    then ok (split_err (drop 4 raw) (index_byte (drop 4 raw) b' '))
    else err (sentinel bad_encoding)

accepted_later : (v : ℕ) (m : BrokerMsg) (bs : Bytes) → later_cases bs ≡ ok m → Stands v m bs
accepted_later v m bs h = elim (Bool-cases (bytes_eq bs (codes "OK"))) [
  | inl t ↦ subst (λ x. Stands v x bs) (cc (rw t at h)) (okay bs ((bytes_eq_iff bs _).0 t))
  | inr f₁ ↦ elim (Bool-cases (bytes_eq bs (codes "PONG"))) [
    | inl t ↦ subst (λ x. Stands v x bs) (cc (rw (f₁, t) at h)) (pong bs ((bytes_eq_iff bs _).0 t))
    | inr f₂ ↦ elim (Bool-cases (bytes_eq bs (codes "END"))) [
      | inl t ↦
          subst (λ x. Stands v x bs) (cc (rw (f₁, f₂, t) at h)) (end bs ((bytes_eq_iff bs _).0 t))
      | inr f₃ ↦ elim (Bool-cases (has_prefix bs (codes "ERR "))) [
        | inl t ↦
            subst (λ x. Stands v x bs) (cc (rw (f₁, f₂, f₃, t) at h))
              (accepted_err v (drop 4 bs) bs _ (has_prefix-split bs _ t)
                (index_byte-SplitAt (drop 4 bs)))
        | inr f₄ ↦ cc (rw (f₁, f₂, f₃, f₄) at h)
      ]
    ]
  ]
]

accepted :
    (v : ℕ) (m : BrokerMsg) (bs : Bytes)
    → All IsByte bs
    → decode_broker_msg v bs ≡ ok m
    → Stands v m bs
unfolding decode_broker_msg decode_err
accepted v m bs all h = elim (Bool-cases (length bs == 0)) [
  | inl empty ↦ cc (rw empty at h)
  | inr some_bytes ↦ elim (Bool-cases (has_prefix bs (codes "IDS "))) [
    | inl t ↦
        accepted_ids v (drop 4 bs) bs m (rest (codes "IDS ") t) (has_prefix-split bs _ t)
          (rw (some_bytes, t) at h)
    | inr no_ids ↦ elim (Bool-cases (has_prefix bs (codes "MSG "))) [
      | inl t ↦
          accepted_msg v (drop 4 bs) bs m (rest (codes "MSG ") t) (has_prefix-split bs _ t)
            (rw (some_bytes, no_ids, t) at h)
      | inr no_msg ↦ accepted_later v m bs (rw (some_bytes, no_ids, no_msg) at h)
    ]
  ]
]
  where
    rest : (p : Bytes) → has_prefix bs p ≡ true → All IsByte (drop (length p) bs)
    rest p t = All-append_right IsByte p _ (subst (All IsByte) (has_prefix-split bs p t) all)

-- DecodeBrokerMsg returns a message for a buffer of bytes exactly where the buffer stands for that
-- message in the layout that the decoder reads; every other buffer is an error. That layout is wider
-- than the grammar of SMP: a message id and the ids of a queue have any length up to 255, and not just
-- 24, or 16 to 24, bytes.
pub decode_broker_msg-eq-ok_iff :
    (v : ℕ) (m : BrokerMsg) (bs : Bytes)
    → All IsByte bs
    → (decode_broker_msg v bs ≡ ok m) ↔ Stands v m bs
decode_broker_msg-eq-ok_iff v m bs all = (accepted v m bs all, decode_broker_msg-Stands v)
