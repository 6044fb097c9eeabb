-- ===== src/Handshake/Hello.antt =====
-- The byte formats of the two hello messages.
use simplex_go.Base.{
  ℕ, ◌-◌, ◌^◌, ◌≤◌, ◌<◌, String, ◌≡◌, refl, sym, ap, ◌∙◌, subst, ◌↔◌, inl, inr, Bool, true, false,
  ◌&&◌, Option, none, some, [], ◌∷◌, ◌++◌, arith, be16, ltb, leb, if◌then◌else◌, ltb→le, Bool-cases,
  length, All, length-drop, Bytes, IsByte, Error, Result, pure, wrap, resume, short_string_too_long,
  sentinel, other, within, ok, err,
}
use simplex_go.Wire.Reads.{
  unread, Writes, Reads-wrap, Writes->>, Writes-wrap, Writes-nothing, after_Writes,
}
use simplex_go.Wire.Consumes.{Consumes, Consumes-wrap}
use simplex_go.Wire.Exhausts.{
  Exhausts, Exhausts->>=, Exhausts-decode, Exhausts-map, Ends->>=, Ends-decode,
}
use simplex_go.Wire.Primitives.{
  short_bytes, Writes-word16, Writes-short_string, Reads-word16, Reads-short_string,
}
use simplex_go.Wire.Canonical.{Consumes-word16, Consumes-short_string}
use simplex_go.Wire.Encoder
use simplex_go.Wire.Decoder
use simplex_go.Wire.Encoder.{Encoder, encode, finish}
use simplex_go.Wire.Decoder.{Decoder, decode}
use simplex_go.Transmission.{version_v7}
use simplex_go.Handshake.{
  SmpServerHandshake, SmpClientHandshake, write_auth_key, encode_client_handshake, read_auth_key,
  read_server_handshake, decode_server_handshake,
}

-- The bytes are the hello of a server: two versions, the session id, and then, if the server speaks
-- version 7, its key to the end; before version 7 what follows is no key and is ignored.
abbrev pub SpellsHello : SmpServerHandshake → Bytes → Type 0
SpellsHello hs raw =
    (hs.version_range.min < 2 ^ 16)
    × (hs.version_range.max < 2 ^ 16)
    × (length hs.session_id ≤ 255)
    × ((more : Bytes) × (raw
          ≡ be16 hs.version_range.min
            ++ (be16 hs.version_range.max ++ (short_bytes hs.session_id ++ more)))
        × (hs.auth_pub_key_raw ≡ (if leb version_v7 hs.version_range.max then more else [])))

nil_of_length : (bs : Bytes) → length bs ≡ 0 → bs ≡ []
nil_of_length [] h = refl
nil_of_length (b ∷ bs) h = absurd (omega arith)

read_auth_key-result :
    (max_v : ℕ) (d : Decoder)
    → (read_auth_key max_v d).0 ≡ ok (if leb version_v7 max_v then unread d else [])
unfolding read_auth_key Decoder.tail Decoder.remaining
read_auth_key-result max_v d = elim (Bool-cases (leb version_v7 max_v)) [
  | inr old ↦ rw old
  | inl new ↦ elim (Bool-cases (ltb 0 (length d.buf - d.pos))) [
    | inl left ↦ rw (new, left)
    | inr none_left ↦
        rw (new, none_left)
          (ap ok (
            sym (
              nil_of_length (unread d)
                (omega (arith, length-drop d.pos d.buf, ltb→le _ _ none_left)))))
  ]
]

hello : ℕ → ℕ → Bytes → Bytes → SmpServerHandshake
hello min_v max_v sess key = record {
  version_range = record { min = min_v; max = max_v };
  session_id = sess;
  auth_pub_key_raw = key;
}

resume-pure-result {ℓ} :
    {A : Type ℓ} {B : Type ℓ} (r : Result A × Decoder) (g : A → B) (a : A)
    → r.0 ≡ ok a
    → (resume r.0 r.1 (λ x. pure (g x))).0 ≡ ok (g a)
resume-pure-result (ok x, d) g a h = cc
resume-pure-result (err x, d) g a h = cc

decode_server_handshake-Spells :
    (hs : SmpServerHandshake) (raw : Bytes)
    → SpellsHello hs raw
    → decode_server_handshake raw ≡ ok hs
unfolding decode_server_handshake read_server_handshake
decode_server_handshake-Spells hs raw (lt_min, lt_max, fits, (more, spelled, key)) = rw spelled (
    Ends-decode read_server_handshake _ hs (
      Ends->>= _ _ (be16 hs.version_range.min) _ hs.version_range.min hs
        (Reads-wrap _ Decoder.word16 (be16 hs.version_range.min) hs.version_range.min
          (Reads-word16 _ lt_min))
        (Ends->>= _ _ (be16 hs.version_range.max) _ hs.version_range.max hs
          (Reads-wrap _ Decoder.word16 (be16 hs.version_range.max) hs.version_range.max
            (Reads-word16 _ lt_max))
          (Ends->>= _ _ (short_bytes hs.session_id) more hs.session_id hs
            (Reads-wrap _ Decoder.short_string (short_bytes hs.session_id) hs.session_id
              (Reads-short_string _))
            (λ d v e.
              resume-pure-result (read_auth_key hs.version_range.max d)
                (λ k. record {
                  version_range = record { min = hs.version_range.min; max = hs.version_range.max };
                  session_id = hs.session_id;
                  auth_pub_key_raw = k;
                })
                hs.auth_pub_key_raw
                (read_auth_key-result hs.version_range.max d
                  ∙ ap (λ (x : Bytes). ok (if leb version_v7 hs.version_range.max then x else [])) e
                  ∙ ap ok (sym key)))))))

Exhausts-auth_key :
    (max_v : ℕ)
    → Exhausts (read_auth_key max_v) (λ key bs. key ≡ (if leb version_v7 max_v then bs else []))
Exhausts-auth_key max_v d key d' v all e =
    let p : ok key ≡ ok (if leb version_v7 max_v then unread d else []) =
      ap (λ (r : Result Bytes × Decoder). r.0) (sym e) ∙ read_auth_key-result max_v d in
    cc p

abbrev key_of : ℕ → Bytes → Bytes
key_of max_v bs = if leb version_v7 max_v then bs else []

abbrev FromSession : ℕ → ℕ → SmpServerHandshake → Bytes → Type 0
FromSession min_v max_v hs bs =
    (sess : Bytes) × (ds : Bytes) × (length sess ≤ 255)
    × (bs ≡ short_bytes sess ++ ds)
    × (hs ≡ hello min_v max_v sess (key_of max_v ds))

abbrev FromMax : ℕ → SmpServerHandshake → Bytes → Type 0
FromMax min_v hs bs =
    (max_v : ℕ) × (ds : Bytes) × (max_v < 2 ^ 16)
    × (bs ≡ be16 max_v ++ ds)
    × FromSession min_v max_v hs ds

abbrev FromMin : SmpServerHandshake → Bytes → Type 0
FromMin hs bs =
    (min_v : ℕ) × (ds : Bytes) × (min_v < 2 ^ 16) × (bs ≡ be16 min_v ++ ds) × FromMax min_v hs ds

Consumes-version :
    (c : String) → Consumes (wrap c Decoder.word16) (λ v bs. (bs ≡ be16 v) × (v < 2 ^ 16))
Consumes-version c = Consumes-wrap c Decoder.word16 _ Consumes-word16

Exhausts-server_hello : Exhausts read_server_handshake FromMin
unfolding read_server_handshake hello
Exhausts-server_hello =
    Exhausts->>= _ _ (λ v bs. (bs ≡ be16 v) × (v < 2 ^ 16)) FromMax FromMin (Consumes-version _)
      (λ min_v.
        Exhausts->>= _ _ (λ v bs. (bs ≡ be16 v) × (v < 2 ^ 16)) (FromSession min_v) (FromMax min_v)
          (Consumes-version _)
          (λ max_v.
            Exhausts->>= _ _ (λ s bs. (bs ≡ short_bytes s) × (length s ≤ 255))
              (λ sess hs bs.
                (key : Bytes) × (hs ≡ hello min_v max_v sess key) × (key ≡ key_of max_v bs))
              (FromSession min_v max_v)
              (Consumes-wrap _ Decoder.short_string _ Consumes-short_string)
              (λ sess.
                Exhausts-map (read_auth_key max_v) (hello min_v max_v sess)
                  (λ key bs. key ≡ key_of max_v bs) (Exhausts-auth_key max_v))
              (λ sess hs bs cs p q. (
                sess,
                cs,
                p.1,
                ap (λ (x : Bytes). x ++ cs) p.0,
                q.1 ∙ ap (hello min_v max_v sess) q.2,
              )))
          (λ max_v hs bs cs p q. (max_v, cs, p.1, ap (λ (x : Bytes). x ++ cs) p.0, q)))
      (λ min_v hs bs cs p q. (min_v, cs, p.1, ap (λ (x : Bytes). x ++ cs) p.0, q))

FromMin-Spells : (hs : SmpServerHandshake) (raw : Bytes) → FromMin hs raw → SpellsHello hs raw
unfolding hello
FromMin-Spells hs raw (min_v, r₁, lt_min, e₁, (max_v, r₂, lt_max, e₂, (sess, more, fits, e₃, is))) =
    subst (λ h. SpellsHello h raw) (sym is)
      (
        lt_min,
        lt_max,
        fits,
        (more, e₁ ∙ ap (◌++◌ (be16 min_v)) (e₂ ∙ ap (◌++◌ (be16 max_v)) e₃), refl),
      )

-- DecodeSMPServerHandshake returns a hello for a buffer of bytes exactly where the buffer is the
-- wire form of that hello.
pub decode_server_handshake-eq-ok_iff :
    (raw : Bytes) (hs : SmpServerHandshake)
    → All IsByte raw
    → (decode_server_handshake raw ≡ ok hs) ↔ SpellsHello hs raw
unfolding decode_server_handshake
decode_server_handshake-eq-ok_iff raw hs all = (
  λ e.
      FromMin-Spells hs raw
        (Exhausts-decode read_server_handshake FromMin Exhausts-server_hello raw all e),
  decode_server_handshake-Spells hs raw,
)

abbrev pub key_bytes : ℕ → Option Bytes → Bytes
key_bytes v none = []
key_bytes v (some key) = if leb version_v7 v then short_bytes key else []

-- The wire form of the client's hello.
abbrev pub client_hello_format : SmpClientHandshake → Bytes
client_hello_format hs =
    be16 hs.version ++ (short_bytes hs.key_hash ++ key_bytes hs.version hs.auth_pub_key_raw)

-- A key that is sent is longer than its prefix can say.
abbrev pub is_long_key : ℕ → Option Bytes → Bool
is_long_key v none = false
is_long_key v (some key) = leb version_v7 v && ltb 255 (length key)

Writes-auth_key :
    (v : ℕ) (o : Option Bytes)
    → is_long_key v o ≡ false
    → Writes (write_auth_key v o) (key_bytes v o)
Writes-auth_key v none h = Writes-nothing
Writes-auth_key v (some key) h = elim (Bool-cases (leb version_v7 v)) [
  | inl new ↦ rw new (Writes-wrap _ _ _ (Writes-short_string key (ltb→le _ _ (rw new at h))))
  | inr old ↦ rw old Writes-nothing
]

abbrev long_key : Error
long_key = within "smp: clientHello authPubKey" (sentinel short_string_too_long)

long_key-fails :
    (v : ℕ) (o : Option Bytes) (e : Encoder)
    → is_long_key v o ≡ true
    → write_auth_key v o e ≡ (err long_key, e)
unfolding Encoder.short_string
long_key-fails v none e h = cc
long_key-fails v (some key) e h = elim (Bool-cases (leb version_v7 v)) [
  | inl new ↦ rw (new, rw new at h)
  | inr old ↦ cc (rw old at h)
]

-- The client's hello, for a 32-byte fingerprint: a version below 6 is an error; so is a key past 255
-- bytes that the version sends; otherwise the hello is the version, the fingerprint, and from
-- version 7 on the key if there is one.
pub encode_client_handshake-result :
    (hs : SmpClientHandshake)
    → length hs.key_hash ≡ 32
    → encode_client_handshake hs ≡ (
        if ltb hs.version 6
        then err (other "smp: clientHello version below minimum")
        else if is_long_key hs.version hs.auth_pub_key_raw
        then err long_key
        else ok (client_hello_format hs))
unfolding encode_client_handshake
encode_client_handshake-result hs h =
    let hash =
      Writes-wrap "smp: clientHello keyHash" _ _ (Writes-short_string hs.key_hash (omega arith)) in
    elim (Bool-cases (ltb hs.version 6)) [
      | inl old ↦ rw old
      | inr new ↦ elim (Bool-cases (is_long_key hs.version hs.auth_pub_key_raw)) [
        | inl long ↦
            rw (new, long)
              (ap finish (
                after_Writes _ _ (be16 hs.version) (record { buf = [] }) (Writes-word16 hs.version)
                ∙ after_Writes _ _ (short_bytes hs.key_hash) (record { buf = be16 hs.version }) hash
                ∙ long_key-fails hs.version hs.auth_pub_key_raw _ long))
        | inr fits ↦
            rw (new, fits)
              (ap finish (
                Writes->> _ _ _ _ (Writes-word16 hs.version)
                  (Writes->> _ _ _ _ hash (Writes-auth_key hs.version hs.auth_pub_key_raw fits))
                  (record { buf = [] })))
      ]
    ]
