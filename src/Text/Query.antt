-- ===== src/Text/Query.antt =====
-- url.ParseQuery with Values.Get, and Values.Encode. A Values is the list of its pairs in the order
-- in which they were added.
use simplex_go.Base.{
  ℕ, ◌+◌, ◌-◌, ◌*◌, ◌/◌, ◌%◌, ◌≡◌, refl, ap, ◌∙◌, ◌≢◌, false, ◌&&◌, Option, none, some, List, [],
  ◌∷◌, ◌++◌, map, append-nil, arith, ltb, leb, ◌==◌, if◌then◌else◌, ==_self, All, Bytes, bytes_eq,
  index_byte, All-append,
}
use simplex_go.Text.Plain.{is_unreserved, IsPlain, Lacks-plain}
use simplex_go.Text.Strings.{◌>>?◌, Lacks, cut, cut-append, ne_test, index_byte-lacking}

abbrev pub Values : Type 0
Values = List (Bytes × Bytes)

unfoldable pub unhex : ℕ → Option ℕ
unhex c =
    if leb b'0' c && leb c b'9'
    then some (c - b'0')
    else if leb b'a' c && leb c b'f'
    then some (c - b'a' + 10)
    else if leb b'A' c && leb c b'F'
    then some (c - b'A' + 10)
    else none

abbrev pub unplus : ℕ → ℕ
unplus c = if c == b'+' then b' ' else c

-- url.QueryUnescape
unfoldable pub query_unescape : Bytes → Option Bytes
query_unescape [] = some []
query_unescape (c ∷ []) = if c == b'%' then none else some (unplus c ∷ [])
query_unescape (c ∷ d ∷ []) =
    let rest = query_unescape (d ∷ []) in
    if c == b'%' then none else rest >>? λ bs. some (unplus c ∷ bs)
query_unescape (c ∷ d ∷ e ∷ s) =
    let escaped = query_unescape s in
    let rest = query_unescape (d ∷ e ∷ s) in
    if c == b'%'
    then (unhex d >>? λ hi. unhex e >>? λ lo. escaped >>? λ bs. some ((hi * 16 + lo) ∷ bs))
    else rest >>? λ bs. some (unplus c ∷ bs)

-- The chunks between the bytes c, as the loop of ParseQuery cuts them off.
unfoldable pub split_on : ℕ → Bytes → List Bytes
split_on c [] = [] ∷ []
split_on c (b ∷ bs) =
    let rest = split_on c bs in
    if b == c
    then [] ∷ rest
    else (elim rest [ [] ↦ (b ∷ []) ∷ [] | chunk ∷ more ↦ (b ∷ chunk) ∷ more ])

-- key, value, _ := strings.Cut(chunk, "=")
abbrev pub key_value : Bytes → Option (Bytes × Bytes) → Bytes × Bytes
key_value chunk none = (chunk, [])
key_value chunk (some kv) = kv

unfoldable pub parse_pair : Bytes → Option (Bytes × Bytes)
parse_pair chunk =
    let (key, value) = key_value chunk (cut b'=' chunk) in
    query_unescape key >>? λ k. query_unescape value >>? λ v. some (k, v)

-- An empty chunk is passed over, one with a semicolon is an error.
unfoldable pub parse_pairs : List Bytes → Option Values
parse_pairs [] = some []
parse_pairs (chunk ∷ chunks) =
    let rest = parse_pairs chunks in
    elim (index_byte chunk b';') [
      | some i ↦ none
      | none ↦
          if bytes_eq chunk [] then rest else parse_pair chunk >>? λ kv. rest >>? λ m. some (kv ∷ m)
    ]

unfoldable pub parse_query : Bytes → Option Values
parse_query query = parse_pairs (split_on b'&' query)

-- The first value of the key, empty if there is none.
unfoldable pub get : Bytes → Values → Bytes
get key [] = []
get key ((k, v) ∷ m) = if bytes_eq k key then v else get key m

-- "0123456789ABCDEF"[d]
abbrev pub hex_digit : ℕ → ℕ
hex_digit d = if ltb d 10 then b'0' + d else b'A' + (d - 10)

-- url.QueryEscape
unfoldable pub query_escape : Bytes → Bytes
query_escape [] = []
query_escape (c ∷ s) =
    let rest = query_escape s in
    if is_unreserved c
    then c ∷ rest
    else if c == b' '
    then b'+' ∷ rest
    else b'%' ∷ hex_digit (c / 16) ∷ hex_digit (c % 16) ∷ rest

abbrev pub encode_pair : Bytes × Bytes → Bytes
encode_pair (k, v) = query_escape k ++ (b'=' ∷ query_escape v)

-- Values.Encode, for pairs in the order of their keys: all but the first behind a `&`.
unfoldable pub encode_more : Values → Bytes
encode_more [] = []
encode_more (kv ∷ m) = b'&' ∷ (encode_pair kv ++ encode_more m)

unfoldable pub encode_values : Values → Bytes
unfolding encode_more
encode_values [] = []
encode_values (kv ∷ m) = encode_pair kv ++ encode_more m

query_escape-plain : (s : Bytes) → All IsPlain s → query_escape s ≡ s
unfolding query_escape
query_escape-plain [] h = refl
query_escape-plain (c ∷ s) h = rw (h.0, query_escape-plain s h.1)

plain_byte : (c : ℕ) → IsPlain c → ((c == b'%') ≡ false) × (unplus c ≡ c)
plain_byte c h = (ground arith, ground arith)

query_unescape-plain : (s : Bytes) → All IsPlain s → query_unescape s ≡ some s
unfolding query_unescape
query_unescape-plain [] h = refl
query_unescape-plain (c ∷ []) h = let (p, q) = plain_byte c h.0 in rw (p, q)
query_unescape-plain (c ∷ d ∷ []) h =
    let (p, q) = plain_byte c h.0 in rw (p, q, query_unescape-plain (d ∷ []) h.1)
query_unescape-plain (c ∷ d ∷ e ∷ s) h =
    let (p, q) = plain_byte c h.0 in rw (p, q, query_unescape-plain (d ∷ e ∷ s) h.1)

split_on-last : (c : ℕ) (xs : Bytes) → Lacks c xs → split_on c xs ≡ xs ∷ []
unfolding split_on
split_on-last c [] h = refl
split_on-last c (x ∷ xs) h =
    let differs : (x == c) ≡ false = ne_test x c h.0 in
    rw (differs, split_on-last c xs h.1, split_on)

split_on-append :
    (c : ℕ) (xs ys : Bytes) → Lacks c xs → split_on c (xs ++ (c ∷ ys)) ≡ xs ∷ split_on c ys
unfolding split_on
split_on-append c [] ys h = rw (==_self c)
split_on-append c (x ∷ xs) ys h =
    let differs : (x == c) ≡ false = ne_test x c h.0 in
    rw (differs, split_on-append c xs ys h.1, split_on)

pub bytes_eq-ne_nil : (xs : Bytes) (c : ℕ) (ys : Bytes) → bytes_eq (xs ++ (c ∷ ys)) [] ≡ false
unfolding bytes_eq
bytes_eq-ne_nil [] c ys = refl
bytes_eq-ne_nil (x ∷ xs) c ys = refl

-- The pairs have plain keys and values.
abbrev pub ArePlain : Values → Type 0
ArePlain = All (λ kv. All IsPlain kv.0 × All IsPlain kv.1)

encode_pair-Lacks :
    (c : ℕ) (kv : Bytes × Bytes)
    → is_unreserved c ≡ false
    → b'=' ≢ c
    → All IsPlain kv.0
    → All IsPlain kv.1
    → Lacks c (encode_pair kv)
encode_pair-Lacks c (k, v) h ne pk pv =
    rw (query_escape-plain k pk, query_escape-plain v pv)
      (All-append (λ b. b ≢ c) k _ (Lacks-plain c k h pk) (ne, Lacks-plain c v h pv))

parse_pair-encode :
    (kv : Bytes × Bytes)
    → All IsPlain kv.0
    → All IsPlain kv.1
    → parse_pair (encode_pair kv) ≡ some kv
unfolding parse_pair
parse_pair-encode (k, v) pk pv = rw (
  query_escape-plain k pk,
  query_escape-plain v pv,
  cut-append b'=' k v (Lacks-plain b'=' k refl pk),
  query_unescape-plain k pk,
  query_unescape-plain v pv,
)

parse_pairs-cons :
    (kv : Bytes × Bytes) (chunks : List Bytes) (m : Values)
    → All IsPlain kv.0 × All IsPlain kv.1
    → parse_pairs chunks ≡ some m
    → parse_pairs (encode_pair kv ∷ chunks) ≡ some (kv ∷ m)
unfolding parse_pairs
parse_pairs-cons kv chunks m h e =
    let no_semicolon : index_byte (encode_pair kv) b';' ≡ none =
      index_byte-lacking b';' _ (encode_pair-Lacks b';' kv refl (λ p. cc p) h.0 h.1) in
    let not_empty = bytes_eq-ne_nil (query_escape kv.0) b'=' (query_escape kv.1) in
    rw (no_semicolon, not_empty, parse_pair-encode kv h.0 h.1, e, parse_pairs)

parse_pairs-nil : parse_pairs [] ≡ some []
unfolding parse_pairs
parse_pairs-nil = refl

encode_pair-no_amp :
    (kv : Bytes × Bytes) (m : Values) → ArePlain (kv ∷ m) → Lacks b'&' (encode_pair kv)
encode_pair-no_amp kv m h = encode_pair-Lacks b'&' kv refl (λ p. cc p) h.0.0 h.0.1

split_on-encode_more :
    (kv : Bytes × Bytes) (m : Values)
    → ArePlain (kv ∷ m)
    → split_on b'&' (encode_pair kv ++ encode_more m) ≡ map encode_pair (kv ∷ m)
unfolding encode_more
split_on-encode_more kv [] h =
    rw (append-nil (encode_pair kv))
      (split_on-last b'&' (encode_pair kv) (encode_pair-no_amp kv [] h))
split_on-encode_more kv (kv' ∷ m) h =
    split_on-append b'&' (encode_pair kv) (encode_pair kv' ++ encode_more m)
      (encode_pair-no_amp kv (kv' ∷ m) h)
    ∙ ap (◌∷◌ (encode_pair kv)) (split_on-encode_more kv' m h.1)

parse_pairs-map : (m : Values) → ArePlain m → parse_pairs (map encode_pair m) ≡ some m
parse_pairs-map [] h = parse_pairs-nil
parse_pairs-map (kv ∷ m) h = parse_pairs-cons kv _ m h.0 (parse_pairs-map m h.1)

-- ParseQuery reads back what Encode wrote of one or more pairs that need no escapes.
pub parse_query-encode_values :
    (kv : Bytes × Bytes) (m : Values)
    → ArePlain (kv ∷ m)
    → parse_query (encode_values (kv ∷ m)) ≡ some (kv ∷ m)
unfolding parse_query encode_values
parse_query-encode_values kv m h =
    ap parse_pairs (split_on-encode_more kv m h) ∙ parse_pairs-map (kv ∷ m) h
