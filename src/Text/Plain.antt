-- ===== src/Text/Plain.antt =====
-- The bytes that stand for themselves in the query of an address: what net/url does not escape.
use simplex_go.Base.{ℕ, ◌≡◌, ap, Bool, true, false, ◌&&◌, ◌||◌, [], ◌∷◌, leb, ◌==◌, All, Bytes}
use simplex_go.Text.Strings.{Lacks}

-- not shouldEscape(c, encodeQueryComponent)
abbrev pub is_unreserved : ℕ → Bool
is_unreserved c =
    (leb b'a' c && leb c b'z')
    || (leb b'A' c && leb c b'Z')
    || (leb b'0' c && leb c b'9')
    || c == b'-'
    || c == b'_'
    || c == b'.'
    || c == b'~'

abbrev pub IsPlain : ℕ → Type 0
IsPlain c = is_unreserved c ≡ true

-- A text of such bytes has none of the bytes that separate the parts of an address.
pub Lacks-plain : (c : ℕ) (s : Bytes) → is_unreserved c ≡ false → All IsPlain s → Lacks c s
Lacks-plain c [] h all = tt
Lacks-plain c (b ∷ bs) h all = (λ e. cc (h, all.0, ap is_unreserved e), Lacks-plain c bs h all.1)
