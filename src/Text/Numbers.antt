-- ===== src/Text/Numbers.antt =====
-- strconv.ParseUint(s, 10, 16), and the verb %d on a uint16.
use simplex_go.Base.{
  ℕ, zero, suc, ◌+◌, ◌-◌, ◌*◌, ◌/◌, ◌%◌, ◌≤◌, ◌<◌, ◌≡◌, sym, ap, ◌∙◌, ◌≢◌, inl, inr, Bool, true,
  ◌&&◌, Option, none, some, [], ◌∷◌, arith, ltb, leb, if◌then◌else◌, ltb→lt, le→ltb, ltb→le,
  Bool-cases, All, Bytes,
}
use simplex_go.Text.Plain.{IsPlain}
use simplex_go.Text.Strings.{Lacks, some-injective}

is_digit : ℕ → Bool
is_digit c = leb b'0' c && leb c b'9'

-- The loop of ParseUint. The value stays below 2^16, far from the cutoff of 64 bits.
unfoldable pub parse_digits : Bytes → ℕ → Option ℕ
unfolding is_digit
parse_digits [] n = some n
parse_digits (c ∷ cs) n =
    let n' = n * 10 + (c - b'0') in
    let rest = parse_digits cs n' in
    if is_digit c then (if ltb 65535 n' then none else rest) else none

unfoldable pub parse_uint16 : Bytes → Option ℕ
parse_uint16 [] = none
parse_uint16 (c ∷ cs) = parse_digits (c ∷ cs) 0

-- The loop that writes the digits from the last to the first, in front of `acc`.
unfoldable pub format_digits : (fuel n : ℕ) → Bytes → Bytes
format_digits zero n acc = acc
format_digits (suc f) n acc =
    let rest = format_digits f (n / 10) ((b'0' + n % 10) ∷ acc) in
    if ltb n 10 then (b'0' + n) ∷ acc else rest

-- Five digits are enough for a uint16.
unfoldable pub decimal : ℕ → Bytes
decimal n = format_digits 5 n []

-- 10 ^ f, as a product.
abbrev pub limit : ℕ → ℕ
limit zero = 1
limit (suc f) = limit f * 10

parse_digits-digit :
    (d n : ℕ) (acc : Bytes)
    → d < 10
    → n * 10 + d ≤ 65535
    → parse_digits ((b'0' + d) ∷ acc) n ≡ parse_digits acc (n * 10 + d)
unfolding parse_digits is_digit
parse_digits-digit d n acc lt h =
    let e : n * 10 + (b'0' + d - b'0') ≡ n * 10 + d = omega arith in
    let low : leb b'0' (b'0' + d) ≡ true = ground arith in
    let high : leb (b'0' + d) b'9' ≡ true = ground arith in
    rw (e, low, high, le→ltb 65535 (n * 10 + d) h)

parse-format_digits :
    (f n : ℕ) (acc : Bytes)
    → n < limit f
    → n ≤ 65535
    → parse_digits (format_digits f n acc) 0 ≡ parse_digits acc n
unfolding format_digits
parse-format_digits zero n acc h w = let e : n ≡ 0 = omega arith in rw e
parse-format_digits (suc f) n acc h w = elim (Bool-cases (ltb n 10)) [
  | inl small ↦
      let e : 0 * 10 + n ≡ n = omega arith in
      rw small
        (parse_digits-digit n 0 acc (ltb→lt _ _ small) (omega arith) ∙ ap (parse_digits acc) e)
  | inr large ↦
      let e : n / 10 * 10 + n % 10 ≡ n = omega arith in
      rw large (
        parse-format_digits f (n / 10) ((b'0' + n % 10) ∷ acc) (omega arith) (omega arith)
        ∙ parse_digits-digit (n % 10) (n / 10) acc (omega arith) (omega arith)
        ∙ ap (parse_digits acc) e)
]

format_digits-cons :
    (f n : ℕ) (acc : Bytes) → (c : ℕ) × (cs : Bytes) × (format_digits (suc f) n acc ≡ c ∷ cs)
unfolding format_digits
format_digits-cons zero n acc = elim (Bool-cases (ltb n 10)) [
  | inl small ↦ (b'0' + n, acc, rw small)
  | inr large ↦ (b'0' + n % 10, acc, rw large)
]
format_digits-cons (suc f) n acc = elim (Bool-cases (ltb n 10)) [
  | inl small ↦ (b'0' + n, acc, rw small)
  | inr large ↦
      let (c, cs, e) = format_digits-cons f (n / 10) ((b'0' + n % 10) ∷ acc) in (c, cs, rw large e)
]

-- What %d prints of a uint16 is read back by ParseUint.
pub parse_uint16-decimal : (n : ℕ) → n ≤ 65535 → parse_uint16 (decimal n) ≡ some n
unfolding parse_uint16 decimal parse_digits
parse_uint16-decimal n h =
    let (c, cs, e) = format_digits-cons 4 n [] in
    let loop : parse_digits (c ∷ cs) 0 ≡ some n =
      ap (λ (s : Bytes). parse_digits s 0) (sym e) ∙ parse-format_digits 5 n [] (omega arith) h in
    rw e loop

IsPlain-digit : (d : ℕ) → d < 10 → IsPlain (b'0' + d)
IsPlain-digit d h =
    let low : leb b'0' (b'0' + d) ≡ true = ground arith in
    let high : leb (b'0' + d) b'9' ≡ true = ground arith in ground arith

format_digits-All :
    (P : ℕ → Type 0) (f n : ℕ) (acc : Bytes)
    → ((d : ℕ) → d < 10 → P (b'0' + d))
    → All P acc
    → All P (format_digits f n acc)
unfolding format_digits
format_digits-All P zero n acc digit h = h
format_digits-All P (suc f) n acc digit h = elim (Bool-cases (ltb n 10)) [
  | inl small ↦ rw small (digit n (ltb→lt _ _ small), h)
  | inr large ↦ rw large (format_digits-All P f (n / 10) _ digit (digit (n % 10) (omega arith), h))
]

pub decimal-IsPlain : (n : ℕ) → All IsPlain (decimal n)
unfolding decimal
decimal-IsPlain n = format_digits-All IsPlain 5 n [] IsPlain-digit tt

pub decimal-Lacks_dash : (n : ℕ) → Lacks b'-' (decimal n)
unfolding decimal
decimal-Lacks_dash n = format_digits-All (λ c. c ≢ b'-') 5 n [] (λ d h e. omega arith) tt

parse_digits-bounds : (s : Bytes) (n m : ℕ) → n ≤ 65535 → parse_digits s n ≡ some m → m ≤ 65535
unfolding parse_digits
parse_digits-bounds [] n m h e = let same : n ≡ m = some-injective e in omega arith
parse_digits-bounds (c ∷ cs) n m h e = elim (Bool-cases (is_digit c)) [
  | inr letter ↦ cc (rw letter at e)
  | inl digit ↦ elim (Bool-cases (ltb 65535 (n * 10 + (c - b'0')))) [
    | inl over ↦ cc (rw (digit, over) at e)
    | inr fits ↦ parse_digits-bounds cs _ m (ltb→le _ _ fits) (rw (digit, fits) at e)
  ]
]

-- ParseUint with 16 bits never returns more than a uint16 holds.
pub parse_uint16-bounds : (s : Bytes) (n : ℕ) → parse_uint16 s ≡ some n → n ≤ 65535
unfolding parse_uint16
parse_uint16-bounds [] n h = cc
parse_uint16-bounds (c ∷ cs) n h = parse_digits-bounds (c ∷ cs) 0 n (omega arith) h
