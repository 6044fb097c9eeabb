-- ===== src/Transport/Framing.antt =====
-- The frame of a transport block, and what WriteBlock and ReadBlock do with it.
use simplex_go.Base.{
  ℕ, zero, suc, ◌+◌, ◌-◌, ◌*◌, ◌%◌, ◌^◌, ◌≤◌, ◌<◌, ◌≡◌, refl, sym, ap, ap₂, ◌⊎◌, inl, inr, true,
  Option, none, some, List, [], ◌∷◌, ◌++◌, arith, be16, uint16_of, uint16_of-be16, be16-bytes, ltb,
  leb, if◌then◌else◌, ltb→lt, le→ltb, ltb→le, Bool-cases, length, take, drop, replicate, All,
  length-append, length-replicate, length-take, take-append_self, take-append-drop, Bytes, IsByte,
  All-append, bad_block, large_block, sentinel, ok, err,
}
use simplex_go.Transport.{
  smp_block_size, frame, unframe, earliest_deadline, Conn, Tls, or_keep, write_block,
}

pad-bytes : (k : ℕ) → All IsByte (replicate k b'#')
pad-bytes zero = tt
pad-bytes (suc k) = (omega arith, pad-bytes k)

abbrev framed_block : Bytes → Bytes
framed_block payload =
    let n = length payload in be16 n ++ (payload ++ replicate (16384 - (2 + n)) b'#')

frame-fits :
    (payload : Bytes)
    → length payload ≤ 16382
    → (frame payload ≡ ok (framed_block payload))
      × (length (framed_block payload) ≡ smp_block_size)
      × (unframe (framed_block payload) ≡ ok payload)
unfolding frame unframe
frame-fits payload h =
    let n = length payload in
    let len : n % 2 ^ 16 ≡ n = omega arith in
    let pad : Bytes = replicate (16384 - (2 + n)) b'#' in
    let word : uint16_of (be16 n) ≡ n = uint16_of-be16 n (omega arith) in
    (
      rw (le→ltb 16382 n h, len),
      omega (arith, length-append payload pad, length-replicate {A = ℕ} (16384 - (2 + n)) b'#'),
      rw (word, le→ltb 16382 n h) (ap ok (take-append_self payload pad)),
    )

-- A payload of bytes, at most 16382 of them, is framed without an error in a block of exactly 16384
-- bytes, from which ReadBlock recovers the payload.
pub unframe-frame :
    (payload : Bytes)
    → length payload ≤ 16382
    → All IsByte payload
    → (block : Bytes) × (frame payload ≡ ok block)
      × (length block ≡ smp_block_size)
      × All IsByte block
      × (unframe block ≡ ok payload)
unframe-frame payload h bytes =
    let (made, size, back) = frame-fits payload h in
    let pad : Bytes = replicate (16384 - (2 + length payload)) b'#' in
    (
      framed_block payload,
      made,
      size,
      All-append IsByte (be16 (length payload)) _ (be16-bytes (length payload))
          (All-append IsByte payload pad bytes (pad-bytes _)),
      back,
    )

frame-too_large :
    (payload : Bytes)
    → ltb 16382 (length payload) ≡ true
    → frame payload ≡ err (sentinel large_block)
unfolding frame
frame-too_large payload h = rw h

-- A payload that ReadBlock returns from a block of 16384 bytes is at most 16382 bytes long and
-- stands in the block behind its length; a block whose length prefix says more is ErrBadBlock. The
-- padding is not looked at.
pub unframe-result :
    (block : Bytes)
    → length block ≡ smp_block_size
    → All IsByte block
    → ((n : ℕ) × (payload pad : Bytes) × (n ≤ 16382)
        × (length payload ≡ n)
        × (block ≡ be16 n ++ (payload ++ pad))
        × (unframe block ≡ ok payload))
      ⊎ ((n : ℕ) × (16382 < n)
          × (take 2 block ≡ be16 n)
          × (unframe block ≡ err (sentinel bad_block)))
unfolding unframe
unframe-result [] h all = absurd (omega arith)
unframe-result (a ∷ []) h all = absurd (omega arith)
unframe-result (a ∷ b ∷ rest) h all =
    let n = a * 256 + b in
    let prefix : a ∷ b ∷ [] ≡ be16 n = ground arith in
    elim (Bool-cases (ltb 16382 n)) [
      | inl long ↦ inr (n, ltb→lt _ _ long, prefix, rw long)
      | inr fits ↦ inl (
        n,
        take n rest,
        drop n rest,
        ltb→le _ _ fits,
        length-take n rest (omega (arith, ltb→le _ _ fits)),
        ap₂ ◌++◌ prefix (sym (take-append-drop n rest)),
        rw fits,
      )
    ]

-- The deadlines that a timeout and a context give, and the least of some times.
abbrev pub given_deadlines : (io now : ℕ) → Option ℕ → List ℕ
given_deadlines io now none = if ltb 0 io then (now + io) ∷ [] else []
given_deadlines io now (some t) = if ltb 0 io then (now + io) ∷ t ∷ [] else t ∷ []

unfoldable pub least : List ℕ → Option ℕ
least [] = none
least (t ∷ ts) = elim (least ts) [ none ↦ some t | some u ↦ some (if leb t u then t else u) ]

-- The deadline of a read or a write is the earliest of those that the configured timeout and the
-- context give, and none if they give none.
pub earliest_deadline-least :
    (io now : ℕ) (ctx : Option ℕ)
    → earliest_deadline io now ctx ≡ least (given_deadlines io now ctx)
unfolding earliest_deadline least
earliest_deadline-least io now none = ground arith
earliest_deadline-least io now (some u) = ground arith

or_keep-none : (o : Option ℕ) → or_keep o none ≡ o
or_keep-none none = refl
or_keep-none (some t) = refl

module _ {S : Type 0} (io : Tls S) (now : ℕ) (ctx : Option ℕ) where
  -- Whatever the TLS connection does, on a connection with no write deadline set: past 16382 bytes
  -- WriteBlock does nothing but return ErrLargeBlock; otherwise it makes one call of the connection's
  -- Write, with one whole block of 16384 bytes that reads back as the payload and under the earliest
  -- of the deadlines that the connection's timeout and the context give (none if they give none),
  -- returns what that call returns, and leaves no write deadline set.
  pub write_block-calls :
      (payload : Bytes) (c : Conn S)
      → c.write_deadline ≡ none
      → ((16382 < length payload)
          × (write_block io now ctx payload c ≡ (err (sentinel large_block), c)))
        ⊎ ((length payload ≤ 16382)
            × (block : Bytes) × (length block ≡ smp_block_size)
            × (unframe block ≡ ok payload)
            × (let r = io.write (least (given_deadlines c.io_timeout now ctx)) block c.tls in
                write_block io now ctx payload c
                ≡ (r.0, record c { tls = r.1; write_deadline = none })))
  unfolding write_block
  write_block-calls payload c clear = elim (Bool-cases (ltb 16382 (length payload))) [
    | inl long ↦ inl (ltb→lt _ _ long, rw (frame-too_large payload long, write_block))
    | inr fits ↦
        let (made, size, back) = frame-fits payload (ltb→le _ _ fits) in
        inr (
          ltb→le _ _ fits,
          framed_block payload,
          size,
          back,
          rw (
            made,
            write_block,
            clear,
            or_keep-none (earliest_deadline c.io_timeout now ctx),
            earliest_deadline-least c.io_timeout now ctx,
          ),
        )
  ]
