-- ===== src/Tests/Session.antt =====
-- The handshake, block framing and the start of a session on small inputs.
use simplex_go.Base.{
  ℕ, zero, suc, ◌+◌, ◌≤◌, ◌<◌, ◌≡◌, refl, ap, ◌↔◌, ◌⊎◌, none, List, [], ◌∷◌, ◌++◌, arith, be16,
  length, take, replicate, All, length-replicate, Bytes, IsByte, bad_block, incompatible_version,
  large_block, fingerprint_mismatch, sentinel, other, ok, err,
}
use simplex_go.Wire.Encoder
use simplex_go.Wire.Decoder
use simplex_go.Handshake.{SmpServerHandshake, decode_server_handshake, negotiate_version}
use simplex_go.Handshake.Hello.{SpellsHello, decode_server_handshake-eq-ok_iff}
use simplex_go.Handshake.Negotiation.{IsBest, IsCommon, negotiate_version-IsBest}
use simplex_go.Transport.{
  smp_block_size, frame, unframe, Conn, Tls, write_block, Certificate, verify_connection, eof,
}
use simplex_go.Transport.Framing.{unframe-frame, unframe-result, write_block-calls}
use simplex_go.Transport.Pinning.{HasPin, verify_connection-eq-ok_iff}
use simplex_go.Dial.{BlockTransport, X25519, HandshakeParams}

negotiate_version-IsBest_example :
    ((v : ℕ)
      → (negotiate_version (record { min = 4; max = 6 }) ≡ ok v)
        ↔ IsBest (record { min = 4; max = 6 }) v)
    × ((negotiate_version (record { min = 4; max = 6 }) ≡ err (sentinel incompatible_version))
        ↔ ((w : ℕ) → ¬ IsCommon (record { min = 4; max = 6 }) w))
negotiate_version-IsBest_example = negotiate_version-IsBest (record { min = 4; max = 6 })

abbrev pub key_hash : Bytes
key_hash = replicate 32 4

abbrev pub session : Bytes
session = 1 ∷ 2 ∷ []

abbrev pub hello : Bytes
hello = 0 ∷ 6 ∷ 0 ∷ 6 ∷ 2 ∷ session

abbrev server : SmpServerHandshake
server = record {
  version_range = record { min = 6; max = 6 };
  session_id = session;
  auth_pub_key_raw = [];
}

decode_server_handshake-eq-ok_iff_example :
    (decode_server_handshake hello ≡ ok server) ↔ SpellsHello server hello
decode_server_handshake-eq-ok_iff_example =
    decode_server_handshake-eq-ok_iff hello server (omega arith)

unframe-frame_example :
    (block : Bytes) × (frame (3 ∷ 4 ∷ []) ≡ ok block)
    × (length block ≡ smp_block_size)
    × All IsByte block
    × (unframe block ≡ ok (3 ∷ 4 ∷ []))
unframe-frame_example = unframe-frame (3 ∷ 4 ∷ []) (omega arith) (omega arith)

-- A connection whose state is the list of the blocks that were written.
abbrev pub recorder : Tls (List Bytes)
recorder = record {
  write = λ deadline block s. (ok tt, block ∷ s);
  read_full = λ deadline s. (eof, s);
}

abbrev pub idle : Conn (List Bytes)
idle = record { tls = []; io_timeout = 10; read_deadline = none; write_deadline = none }

write_block-calls_example :
    ((16382 < 2)
      × (write_block recorder 100 none session idle ≡ (err (sentinel large_block), idle)))
    ⊎ ((2 ≤ 16382)
        × (block : Bytes) × (length block ≡ smp_block_size)
        × (unframe block ≡ ok session)
        × (write_block recorder 100 none session idle
            ≡ (ok tt, record idle { tls = block ∷ []; write_deadline = none })))
write_block-calls_example = write_block-calls recorder 100 none session idle refl

abbrev chain : List Certificate
chain = record { raw = 1 ∷ []; raw_spki = 2 ∷ [] } ∷ record { raw = 3 ∷ []; raw_spki = 4 ∷ [] } ∷ []

-- The digest that is the identity stands for sha256.
verify_connection-eq-ok_iff_example :
    ((verify_connection (λ b. b) (3 ∷ []) chain ≡ ok tt)
      ↔ ((2 ≤ 2) × (2 ≤ 4) × HasPin (λ b. b) (3 ∷ []) chain))
    × ((verify_connection (λ b. b) (3 ∷ []) chain ≡ err (sentinel fingerprint_mismatch))
        ↔ ((2 ≤ 2) × (2 ≤ 4) × ¬ HasPin (λ b. b) (3 ∷ []) chain))
    × ((verify_connection (λ b. b) (3 ∷ []) chain
          ≡ err (other "smp: server presented no certificates"))
        ↔ (length chain ≡ 0))
    × ((verify_connection (λ b. b) (3 ∷ []) chain ≡ err (other "smp: unexpected cert chain length"))
        ↔ ((length chain ≡ 1) ⊎ (4 < length chain)))
verify_connection-eq-ok_iff_example = verify_connection-eq-ok_iff (λ b. b) (3 ∷ []) chain

abbrev pub curve : X25519
curve = record { generate = ok (replicate 32 1, replicate 32 2); public_of = λ priv. ok priv }

-- A server that says the hello; the state is what the client has written, `[]` at its close.
abbrev greeting : BlockTransport (List Bytes)
greeting = record {
  read_block = λ s. (ok hello, s);
  write_block = λ block s. (ok tt, block ∷ s);
  close = λ s. (ok tt, [] ∷ s);
}

abbrev pub agreed : HandshakeParams
agreed = record { version = 6; sess_id = session; peer_auth_pub_key = none; block_size = 16384 }

-- A block of 5 bytes of payload.
abbrev short_block_of : Bytes
short_block_of = be16 5 ++ replicate 16382 b'#'

length-short_block_of : length short_block_of ≡ smp_block_size
length-short_block_of = ap (◌+◌ 2) (length-replicate {A = ℕ} 16382 b'#')

pad-IsByte : (k : ℕ) → All IsByte (replicate k b'#')
pad-IsByte zero = tt
pad-IsByte (suc k) = (omega arith, pad-IsByte k)

unframe-result_example :
    ((n : ℕ) × (payload pad : Bytes) × (n ≤ 16382)
      × (length payload ≡ n)
      × (short_block_of ≡ be16 n ++ (payload ++ pad))
      × (unframe short_block_of ≡ ok payload))
    ⊎ ((n : ℕ) × (16382 < n)
        × (take 2 short_block_of ≡ be16 n)
        × (unframe short_block_of ≡ err (sentinel bad_block)))
unframe-result_example =
    unframe-result short_block_of length-short_block_of
      (omega arith, (omega arith, pad-IsByte 16382))
