-- ===== src/Block/Format.antt =====
-- The byte format of a block.
use simplex_go.Base.{ℕ, ◌≤◌, ◌≡◌, List, [], ◌∷◌, ◌++◌, be16, length, Bytes, ok}
use simplex_go.Transmission.{Transmission, decode_transmission}

-- transmissions = (transmissionLength transmission)*
abbrev pub framed : List Bytes → Bytes
framed [] = []
framed (w ∷ ws) = be16 (length w) ++ (w ++ framed ws)

-- transportBlock = transmissionCount transmissions
abbrev pub block_format : List Bytes → Bytes
block_format ws = length ws ∷ framed ws

-- Each of the wire forms fits its length prefix and parses to the transmission at its place.
abbrev pub Parsed : ℕ → Bytes → List Bytes → List Transmission → Type 0
Parsed v s [] [] = Unit {0}
Parsed v s (w ∷ ws) (t ∷ ts) =
    (length w ≤ 65535) × (decode_transmission v s w ≡ ok t) × Parsed v s ws ts
Parsed v s _ _ = ⊥
