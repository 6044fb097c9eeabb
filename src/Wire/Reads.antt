-- ===== src/Wire/Reads.antt =====
-- What an operation of an Encoder writes and what one of a Decoder reads, as statements on byte
-- strings that compose along a `do` block.
use simplex_go.Base.{
  ℕ, ◌+◌, ◌-◌, ◌≤◌, String, ◌≡◌, sym, ap, ◌∙◌, Bool, true, false, [], ◌++◌, append-nil,
  append_assoc, arith, if◌then◌else◌, le→ltb, length, take, drop, length-append, length-drop,
  take-append_self, drop-append_self, drop-drop, Bytes, Op, pure, wrap, ◌>>=◌, ◌>>◌, ok,
}
use simplex_go.Wire.Encoder.{Encoder}
use simplex_go.Wire.Decoder.{Decoder, need}

-- The position is not past the end.
abbrev pub IsValid : Decoder → Type 0
IsValid d = d.pos ≤ length d.buf

-- What the decoder has not read.
abbrev pub unread : Decoder → Bytes
unread d = drop d.pos d.buf

abbrev pub advance : ℕ → Decoder → Decoder
advance n d = record d { pos = d.pos + n }

-- Where `bs` lies ahead, `m` succeeds with `a` and moves the decoder over exactly `bs`.
abbrev pub Reads {ℓ} : {A : Type ℓ} → Op Decoder A → Bytes → A → Type ℓ
Reads m bs a =
    (d : Decoder) (more : Bytes)
    → IsValid d
    → unread d ≡ bs ++ more
    → m d ≡ (ok a, advance (length bs) d)

-- `m` succeeds and appends exactly `bs`.
abbrev pub Writes : Op Encoder (Unit {0}) → Bytes → Type 0
Writes m bs = (e : Encoder) → m e ≡ (ok tt, record e { buf = e.buf ++ bs })

length-unread : (d : Decoder) → length (unread d) ≡ length d.buf - d.pos
length-unread d = length-drop d.pos d.buf

pub advance-fits :
    (d : Decoder) (bs more : Bytes)
    → IsValid d
    → unread d ≡ bs ++ more
    → d.pos + length bs ≤ length d.buf
advance-fits d bs more v e = omega (arith, length-unread d, ap length e, length-append bs more)

pub unread-advance :
    (d : Decoder) (bs more : Bytes) → unread d ≡ bs ++ more → unread (advance (length bs) d) ≡ more
unread-advance d bs more e =
    sym (drop-drop d.pos (length bs) d.buf) ∙ ap (drop (length bs)) e ∙ drop-append_self bs more

pub Reads-need : (bs : Bytes) → Reads (need (length bs)) bs bs
unfolding need
Reads-need bs d more v e =
    rw (le→ltb _ _ (advance-fits d bs more v e))
      (λ i. (ok ((ap (take (length bs)) e ∙ take-append_self bs more) i), advance (length bs) d))

pub Reads-pure {ℓ} : {A : Type ℓ} (a : A) → Reads (pure a) [] a
Reads-pure a d more v e =
    let p : d.pos ≡ d.pos + 0 = omega arith in λ i. (ok a, record d { pos = p i })

advance-advance :
    (d : Decoder) (bs cs : Bytes)
    → advance (length cs) (advance (length bs) d) ≡ advance (length (bs ++ cs)) d
advance-advance d bs cs =
    let p : d.pos + length bs + length cs ≡ d.pos + length (bs ++ cs) =
      omega (arith, length-append bs cs) in
    λ i. record d { pos = p i }

pub Reads->>= {ℓ κ} :
    {A : Type ℓ} {B : Type κ} (m : Op Decoder A) (f : A → Op Decoder B) (bs cs : Bytes) (a : A)
    (b : B)
    → Reads m bs a
    → Reads (f a) cs b
    → Reads (m >>= f) (bs ++ cs) b
Reads->>= m f bs cs a b hm hf d more v e =
    let e' : unread d ≡ bs ++ (cs ++ more) = e ∙ append_assoc bs cs more in
    rw (hm d (cs ++ more) v e') (
      hf (advance (length bs) d) more (advance-fits d bs (cs ++ more) v e')
        (unread-advance d bs (cs ++ more) e')
      ∙ ap (λ (d' : Decoder). (ok b, d')) (advance-advance d bs cs))

pub Reads-wrap {ℓ} :
    {A : Type ℓ} (c : _) (m : Op Decoder A) (bs : Bytes) (a : A)
    → Reads m bs a
    → Reads (wrap c m) bs a
Reads-wrap c m bs a h d more v e = rw (h d more v e)

pub Writes->> :
    (m k : Op Encoder (Unit {0})) (bs cs : Bytes)
    → Writes m bs
    → Writes k cs
    → Writes (m >> k) (bs ++ cs)
Writes->> m k bs cs hm hk e =
    rw (hm e, hk (record e { buf = e.buf ++ bs }))
      (λ i. (ok tt, record e { buf = append_assoc e.buf bs cs i }))

pub Writes-wrap :
    (c : String) (m : Op Encoder (Unit {0})) (bs : Bytes) → Writes m bs → Writes (wrap c m) bs
Writes-wrap c m bs h e = rw (h e)

pub Writes-if :
    (t : Bool) (m k : Op Encoder (Unit {0})) (bs cs : Bytes)
    → Writes m bs
    → Writes k cs
    → Writes (if t then m else k) (if t then bs else cs)
Writes-if true m k bs cs hm hk = hm
Writes-if false m k bs cs hm hk = hk

pub Writes-nothing : Writes (pure tt) []
Writes-nothing e = ap (λ (x : Bytes). (ok tt, record e { buf = x })) (sym (append-nil e.buf))

-- After a write the rest of the block runs on the longer buffer.
pub after_Writes :
    (m k : Op Encoder (Unit {0})) (bs : Bytes) (e : Encoder)
    → Writes m bs
    → (m >> k) e ≡ k (record e { buf = e.buf ++ bs })
after_Writes m k bs e h = rw (h e)
