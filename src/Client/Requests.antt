-- ===== src/Client/Requests.antt =====
-- The block that a request writes.
use simplex_go.Base.{
  ℕ, ◌+◌, ◌≤◌, ◌<◌, ◌≡◌, subst, ◌⊎◌, inl, inr, Option, none, [], ◌∷◌, append-nil, arith, length,
  length-append, Bytes, Result, large_block, sentinel, ok, err,
}
use simplex_go.Transmission.{Transmission, encode_transmission}
use simplex_go.Block.{decode_block}
use simplex_go.Command.{Command, encode_command}
use simplex_go.Client.{authorize, request}
use simplex_go.Transmission.Format.{Fits, auth_format, wire_format, encode_transmission-format}
use simplex_go.Block.Format.{block_format}
use simplex_go.Block.RoundTrip.{Encoded-Parsed, encode_block-format, decode_block-format}
use simplex_go.Transport.{smp_block_size, unframe, Conn, Tls, write_block}
use simplex_go.Transport.Framing.{least, given_deadlines, write_block-calls}
use simplex_go.Client.Send.{send_block}

-- The block is the count and the length of the one transmission, and its wire bytes.
pub request-delivers :
    (v : ℕ) (sess_id : Bytes) (sign_key : Option (Bytes → Bytes → Result Bytes)) (cmd : Command)
    (auth_bytes : Bytes) (tx : Transmission)
    → encode_command v cmd ≡ ok tx.command
    → auth_bytes ≡ auth_format sess_id tx
    → authorize sign_key auth_bytes tx.corr_id ≡ ok tx.authorization
    → Fits sess_id tx
    → length (wire_format v sess_id tx) ≤ 65535
    → let block = block_format (wire_format v sess_id tx ∷ []) in
      (request v sess_id sign_key tx.corr_id tx.entity_id cmd ≡ ok block)
      × (decode_block v sess_id block ≡ ok (tx ∷ []))
      × (encode_transmission v sess_id tx ≡ ok (wire_format v sess_id tx, auth_bytes))
unfolding request
request-delivers v s sign_key cmd auth_bytes tx e same signed fits short_wire =
    let bare : Transmission = record tx { authorization = [] } in
    let first : encode_transmission v s bare ≡ ok (wire_format v s bare, auth_bytes) =
      rw same (encode_transmission-format v s bare fits.session fits.entity_id (omega arith)) in
    let second : encode_transmission v s tx ≡ ok (wire_format v s tx, auth_bytes) =
      rw same (encode_transmission-format v s tx fits.session fits.entity_id fits.authorization) in
    let block = block_format (wire_format v s tx ∷ []) in
    let parsed =
      Encoded-Parsed v s (tx ∷ []) (wire_format v s tx ∷ [])
        (fits.corr_id, short_wire, (auth_bytes, second), tt) in
    (
      rw (e, first, signed, second)
          (encode_block-format (wire_format v s tx ∷ []) (omega arith) (short_wire, tt)),
      subst (λ (b : Bytes). decode_block v s b ≡ ok (tx ∷ [])) (append-nil block)
          (decode_block-format v s (wire_format v s tx ∷ []) (tx ∷ []) [] parsed),
      second,
    )

-- What WriteBlock makes of the block of a transmission with these wire bytes.
abbrev pub Delivers :
    {S : Type 0}
    → Tls S
    → ℕ
    → Option ℕ
    → Conn S
    → (v : ℕ) (sess_id : Bytes) (tx : Transmission) (wire block : Bytes) → Type 0
Delivers io now ctx conn v sess_id tx wire block =
    ((length wire ≤ 16379)
      × (sent : Bytes) × (length sent ≡ smp_block_size)
      × (let r = io.write (least (given_deadlines conn.io_timeout now ctx)) sent conn.tls in
          write_block io now ctx block conn
          ≡ (r.0, record conn { tls = r.1; write_deadline = none }))
      × (unframe sent ≡ ok block)
      × (decode_block v sess_id block ≡ ok (tx ∷ [])))
    ⊎ ((16379 < length wire)
        × (write_block io now ctx block conn ≡ (err (sentinel large_block), conn)))

-- A command that encodes, on an entity, with a 24-byte correlation id and under an authorization of
-- the authorized bytes that the key gives, where the fields fit their length prefixes and the wire
-- bytes are at most 65535: send makes a block without an error, and the authorized bytes of the
-- transmission are those that were authorized. On a connection with no write deadline set, WriteBlock
-- then makes one write of 16384 bytes when the wire bytes are at most 16379, from which a server at
-- the same version and session reads one transmission, with that correlation id, entity, command and
-- authorization; and when they are more, it writes nothing and returns ErrLargeBlock.
pub send_block-Delivers :
    {S : Type 0} (io : Tls S) (now : ℕ) (ctx : Option ℕ) (conn : Conn S) (v : ℕ) (sess_id : Bytes)
    (sign_key : Option (Bytes → Bytes → Result Bytes)) (cmd : Command) (auth_bytes : Bytes)
    (tx : Transmission)
    → conn.write_deadline ≡ none
    → encode_command v cmd ≡ ok tx.command
    → auth_bytes ≡ auth_format sess_id tx
    → authorize sign_key auth_bytes tx.corr_id ≡ ok tx.authorization
    → Fits sess_id tx
    → length (wire_format v sess_id tx) ≤ 65535
    → (block : Bytes) × (send_block v sess_id sign_key tx.entity_id cmd (ok tx.corr_id)
        ≡ ok (tx.corr_id, block))
      × (encode_transmission v sess_id tx ≡ ok (wire_format v sess_id tx, auth_bytes))
      × Delivers io now ctx conn v sess_id tx (wire_format v sess_id tx) block
unfolding send_block
send_block-Delivers io now ctx conn v s sign_key cmd auth_bytes tx clear e same signed fits short =
    let wire = wire_format v s tx in
    let block = block_format (wire ∷ []) in
    let (made, read, second) =
      request-delivers v s sign_key cmd auth_bytes tx e same signed fits short in
    let size : length block ≡ 3 + length wire = omega (arith, length-append wire []) in
    (
      block,
      rw (e, made),
      second,
      elim (write_block-calls io now ctx block conn clear) [
        | inl (large, refused) ↦ inr (omega (arith, size, large), refused)
        | inr (small, sent, whole, back, writes) ↦
            inl (omega (arith, size, small), sent, whole, writes, back, read)
      ],
    )
