-- ===== src/Text/Hex.antt =====
-- hex.EncodeToString.
use simplex_go.Base.{
  ℕ, ◌+◌, ◌-◌, ◌/◌, ◌%◌, ◌<◌, ◌≡◌, refl, ap₂, [], ◌∷◌, arith, ltb, if◌then◌else◌, All, Bytes,
  IsByte,
}

unfoldable pub digit : ℕ → ℕ
digit n = if ltb n 10 then b'0' + n else b'a' + (n - 10)

unfoldable pub encode : Bytes → Bytes
encode [] = []
encode (b ∷ bs) = digit (b / 16) ∷ digit (b % 16) ∷ encode bs

digit-injective : (m n : ℕ) → m < 16 → n < 16 → digit m ≡ digit n → m ≡ n
unfolding digit
digit-injective m n hm hn e = ground arith

digit-IsAscii : (n : ℕ) → n < 16 → digit n < 128
unfolding digit
digit-IsAscii n h = ground arith

-- Bytes with the same digits are the same.
pub encode-injective :
    (xs ys : Bytes) → All IsByte xs → All IsByte ys → encode xs ≡ encode ys → xs ≡ ys
unfolding encode
encode-injective [] [] hx hy e = refl
encode-injective [] (y ∷ ys) hx hy e = cc e
encode-injective (x ∷ xs) [] hx hy e = cc e
encode-injective (x ∷ xs) (y ∷ ys) hx hy e =
    let high =
      digit-injective (x / 16) (y / 16) (omega (arith, hx.0)) (omega (arith, hy.0)) (cc e) in
    let low = digit-injective (x % 16) (y % 16) (omega arith) (omega arith) (cc e) in
    let rest = encode-injective xs ys hx.1 hy.1 (cc e) in
    ap₂ (λ a b. a ∷ b) (omega (arith, high, low)) rest

-- The digits are ASCII.
pub encode-IsAscii : (xs : Bytes) → All IsByte xs → All (λ b. b < 128) (encode xs)
unfolding encode
encode-IsAscii [] h = tt
encode-IsAscii (x ∷ xs) h = (
  digit-IsAscii (x / 16) (omega (arith, h.0)),
  (digit-IsAscii (x % 16) (omega arith), encode-IsAscii xs h.1),
)
