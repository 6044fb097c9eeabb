-- ===== src/Command/Encoding.antt =====
-- When EncodeCommand succeeds, and that its bytes determine the command.
use simplex_go.Base.{
  ℕ, ◌≤◌, ◌≡◌, refl, sym, ap, ◌∙◌, subst, ◌↔◌, inl, inr, Bool, false, not, Option, none, some, [],
  ◌∷◌, ◌++◌, append-nil, arith, ltb, leb, if◌then◌else◌, ltb→le, Bool-cases, length, drop, Bytes,
  codes, bytes_eq, has_prefix, Result, Op, pure, wrap, resume, ◌>>=◌, ok, err,
}
use simplex_go.Wire.Encoder
use simplex_go.Wire.Decoder
use simplex_go.Wire.Decoder.{Decoder, decode}
use simplex_go.Wire.Reads.{Reads, Reads-pure, Reads->>=}
use simplex_go.Wire.Exhausts.{Reads-decode, Ends->>=, Ends-tail, Ends-decode}
use simplex_go.Wire.Primitives.{
  short_bytes, bool_bytes, maybe_bytes, Reads-char, Reads-short_string, Reads-bool, Reads-maybe,
}
use simplex_go.Transmission.{version_v9}
use simplex_go.Command.{
  NewQueueReq, Command, encode_command, new_cmd, sub_cmd, send_cmd, ack_cmd, ping_cmd,
}
use simplex_go.Command.Format.{
  Fits, wire_mode, password, secure_bytes, new_body, command_format, encode_command-format,
}

basic_auth-fits :
    (p : Bytes) (e e' : Encoder.Encoder)
    → (wrap "smp: NEW basicAuth" (Encoder.maybe_short_string (not (bytes_eq p [])) p)) e
      ≡ (ok tt, e')
    → length p ≤ 255
unfolding Encoder.maybe_short_string bytes_eq
basic_auth-fits [] e e' h = omega arith
basic_auth-fits (x ∷ xs) e e' h = elim (Bool-cases (ltb 255 (length (x ∷ xs)))) [
  | inl long ↦ cc (rw long at h)
  | inr fits ↦ ltb→le _ _ fits
]

resume-ok {ℓ κ} :
    {S : Type 0} {A : Type ℓ} {B : Type κ} (r : Result A × S) (f : A → Op S B) {b : B}
    → (resume r.0 r.1 f).0 ≡ ok b
    → (a : A) × (s : S) × (r ≡ (ok a, s)) × ((f a s).0 ≡ ok b)
resume-ok (ok a, s) f h = (a, s, refl, h)
resume-ok (err x, s) f h = cc

finish-ok :
    (r : Result (Unit {0}) × Encoder.Encoder) {bs : Bytes} → Encoder.finish r ≡ ok bs → r.0 ≡ ok tt
finish-ok (ok x, e) h = refl
finish-ok (err x, e) h = cc

encode_new-Fits :
    (v : ℕ) (req : NewQueueReq) (bs : Bytes)
    → encode_command v (new_cmd req) ≡ ok bs
    → Fits (new_cmd req)
unfolding encode_command Encoder.raw Encoder.short_string
encode_new-Fits v req bs h = elim (Bool-cases (ltb 255 (length req.rcv_auth_pub_key_der))) [
  | inl long ↦ cc (rw long at h)
  | inr fits₁ ↦ elim (Bool-cases (ltb 255 (length req.rcv_dh_pub_key_der))) [
    | inl long ↦ cc (rw (fits₁, long) at h)
    | inr fits₂ ↦
        let (a, s, e, f) = resume-ok _ _ (finish-ok _ (rw (fits₁, fits₂) at h)) in
        (ltb→le _ _ fits₁, ltb→le _ _ fits₂, basic_auth-fits req.basic_auth _ _ e)
  ]
]

encode_command-Fits : (v : ℕ) (c : Command) (bs : Bytes) → encode_command v c ≡ ok bs → Fits c
encode_command-Fits v (new_cmd req) bs h = encode_new-Fits v req bs h
encode_command-Fits v sub_cmd bs h = tt
encode_command-Fits v (send_cmd flags body) bs h = tt
encode_command-Fits v (ack_cmd msg_id) bs h = elim (Bool-cases (ltb 255 (length msg_id))) [
  | inl long ↦ unfold encode_command Encoder.raw Encoder.short_string in cc (rw long at h)
  | inr fits ↦ ltb→le _ _ fits
]
encode_command-Fits v ping_cmd bs h = tt

-- EncodeCommand succeeds exactly where the keys and the password of NEW, and the message id of ACK,
-- are at most 255 bytes each, and its result then is the command's format at that version.
pub encode_command-eq-ok_iff :
    (v : ℕ) (c : Command) (bs : Bytes)
    → (encode_command v c ≡ ok bs) ↔ (Fits c × (bs ≡ command_format v c))
encode_command-eq-ok_iff v c bs = (
  λ h. let fits = encode_command-Fits v c bs h in (fits, cc (h, encode_command-format v c fits)),
  λ h. encode_command-format v c h.0 ∙ ap ok (sym h.1),
)

-- A server's reading of a command, from the grammar of the protocol.
password_of : Option Bytes → Bytes
password_of none = []
password_of (some p) = p

read_new : ℕ → Op Decoder Command
read_new v = do
  auth_key ← Decoder.short_string
  dh_key ← Decoder.short_string
  auth ← Decoder.maybe_short_string
  mode ← Decoder.char
  secure ← if leb version_v9 v then Decoder.bool else pure false
  pure (
      new_cmd (record {
        rcv_auth_pub_key_der = auth_key;
        rcv_dh_pub_key_der = dh_key;
        basic_auth = password_of auth;
        subscribe_mode = mode;
        sender_can_secure = secure;
      }))

read_send : Op Decoder Command
read_send = do
  flag ← Decoder.bool
  space ← Decoder.char
  body ← Decoder.tail
  pure (send_cmd (record { notification = flag }) body)

parse_command : ℕ → Bytes → Result Command
parse_command v bs =
    if has_prefix bs (codes "NEW ")
    then decode (read_new v) (drop 4 bs)
    else if has_prefix bs (codes "SEND ")
    then decode read_send (drop 5 bs)
    else if has_prefix bs (codes "ACK ")
    then decode (Decoder.short_string >>= (λ m. pure (ack_cmd m))) (drop 4 bs)
    else if bytes_eq bs (codes "SUB")
    then ok sub_cmd
    else ok ping_cmd

-- What a command says on the wire: an unset mode is subscribe-on-create, and sender_can_secure is
-- not sent before version 9.
abbrev pub on_wire : ℕ → Command → Command
on_wire v (new_cmd req) = new_cmd (record req {
  subscribe_mode = wire_mode req.subscribe_mode;
  sender_can_secure = if leb version_v9 v then req.sender_can_secure else false;
})
on_wire v c = c

password_of-password : (p : Bytes) → password_of (password p) ≡ p
unfolding password_of bytes_eq
password_of-password [] = refl
password_of-password (x ∷ xs) = refl

Reads-secure :
    (v : ℕ) (b : Bool)
    → Reads
        (if leb version_v9 v then Decoder.bool else pure false)
        (secure_bytes v b)
        (if leb version_v9 v then b else false)
Reads-secure v b = elim (Bool-cases (leb version_v9 v)) [
  | inl new ↦ rw new (Reads-bool b)
  | inr old ↦ rw old (Reads-pure false)
]

abbrev new_with : ℕ → NewQueueReq → Bool → Command
new_with v req secure = new_cmd (record {
  rcv_auth_pub_key_der = req.rcv_auth_pub_key_der;
  rcv_dh_pub_key_der = req.rcv_dh_pub_key_der;
  basic_auth = password_of (password req.basic_auth);
  subscribe_mode = wire_mode req.subscribe_mode;
  sender_can_secure = secure;
})

Reads-secure_new :
    (v : ℕ) (req : NewQueueReq)
    → Reads
        ((if leb version_v9 v then Decoder.bool else pure false) >>= (λ b. pure (new_with v req b)))
        (secure_bytes v req.sender_can_secure)
        (on_wire v (new_cmd req))
Reads-secure_new v req =
    let secure : Bool = if leb version_v9 v then req.sender_can_secure else false in
    let bs = secure_bytes v req.sender_can_secure in
    let value : new_with v req secure ≡ on_wire v (new_cmd req) = λ i. new_cmd (record req {
      basic_auth = password_of-password req.basic_auth i;
      subscribe_mode = wire_mode req.subscribe_mode;
      sender_can_secure = secure;
    }) in
    subst
      (λ x.
        Reads
          ((if leb version_v9 v then Decoder.bool else pure false)
            >>= (λ b. pure (new_with v req b)))
          x (on_wire v (new_cmd req)))
      (append-nil bs)
      (Reads->>= _ (λ b. pure (new_with v req b)) bs [] secure _
        (Reads-secure v req.sender_can_secure)
        (subst (λ c. Reads (pure (new_with v req secure)) [] c) value
          (Reads-pure (new_with v req secure))))

decode-new_body :
    (v : ℕ) (req : NewQueueReq)
    → decode (read_new v) (new_body v req) ≡ ok (on_wire v (new_cmd req))
unfolding read_new
decode-new_body v req =
    let whole : Command = on_wire v (new_cmd req) in
    let pass = password req.basic_auth in
    let secure : Bool = if leb version_v9 v then req.sender_can_secure else false in
    ap (λ (r : Result Command × Decoder). r.0)
      (Reads->>= _ _ (short_bytes req.rcv_auth_pub_key_der) _ req.rcv_auth_pub_key_der whole
        (Reads-short_string req.rcv_auth_pub_key_der)
        (Reads->>= _ _ (short_bytes req.rcv_dh_pub_key_der) _ req.rcv_dh_pub_key_der whole
          (Reads-short_string req.rcv_dh_pub_key_der)
          (Reads->>= _ _ (maybe_bytes pass) _ pass whole (Reads-maybe pass) (
            Reads->>= _ _ (wire_mode req.subscribe_mode ∷ []) (secure_bytes v req.sender_can_secure)
              (wire_mode req.subscribe_mode) whole (Reads-char _) (Reads-secure_new v req))))
        (Decoder.new_decoder (new_body v req)) [] (omega arith) (sym (append-nil _)))

decode-send :
    (flag : Bool) (body : Bytes)
    → decode read_send (bool_bytes flag ++ (b' ' ∷ body))
      ≡ ok (send_cmd (record { notification = flag }) body)
unfolding read_send
decode-send flag body =
    let whole : Command = send_cmd (record { notification = flag }) body in
    Ends-decode read_send _ whole (
      Ends->>= _ _ (bool_bytes flag) _ flag whole (Reads-bool flag)
        (Ends->>= _ _ (b' ' ∷ []) body b' ' whole (Reads-char b' ') (Ends-tail _ body)))

decode-ack :
    (m : Bytes)
    → decode (Decoder.short_string >>= (λ x. pure (ack_cmd x))) (short_bytes m) ≡ ok (ack_cmd m)
decode-ack m = Reads-decode _ (short_bytes m) (ack_cmd m) (
    subst (λ bs. Reads (Decoder.short_string >>= (λ x. pure (ack_cmd x))) bs (ack_cmd m))
      (append-nil (short_bytes m))
      (Reads->>= Decoder.short_string (λ x. pure (ack_cmd x)) (short_bytes m) [] m (ack_cmd m)
        (Reads-short_string m) (Reads-pure (ack_cmd m))))

parse_command-format :
    (v : ℕ) (c : Command) → parse_command v (command_format v c) ≡ ok (on_wire v c)
unfolding parse_command has_prefix bytes_eq
parse_command-format v (new_cmd req) = decode-new_body v req
parse_command-format v sub_cmd = refl
parse_command-format v (send_cmd flags body) = decode-send flags.notification body
parse_command-format v (ack_cmd m) = decode-ack m
parse_command-format v ping_cmd = refl

-- Two commands that EncodeCommand turns into the same bytes at one version are the same command, up
-- to what the wire does not say: an unset subscribe mode is subscribe-on-create, and before version
-- 9 the flag of a sender that can secure the queue is not sent.
pub encode_command-injective :
    (v : ℕ) (c c' : Command) (bs : Bytes)
    → encode_command v c ≡ ok bs
    → encode_command v c' ≡ ok bs
    → on_wire v c ≡ on_wire v c'
encode_command-injective v c c' bs e e' =
    let p = ((encode_command-eq-ok_iff v c bs).0 e).1 in
    let p' = ((encode_command-eq-ok_iff v c' bs).0 e').1 in
    cc (
      sym (parse_command-format v c)
      ∙ ap (parse_command v) (sym p ∙ p')
      ∙ parse_command-format v c')
