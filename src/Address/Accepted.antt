-- ===== src/Address/Accepted.antt =====
-- What the parser accepts, and that it reads the printed form of what it has read.
use simplex_go.Base.{
  ℕ, ◌≤◌, ◌≡◌, ap, subst, ◌≢◌, inl, inr, ◌&&◌, Option, none, some, [], ◌∷◌, arith, ltb, leb, ltb→le,
  Bool-cases, Option-cases, length, take, drop, All, Bytes, IsByte, codes, bytes_eq, has_prefix,
  index_byte, All-append_left, All-append_right, ok,
}
use simplex_go.Handshake.{VersionRange}
use simplex_go.Text.Strings.{
  ◌>>?◌, >>?-eq-some, some-injective, cut, cut_last, Lacks, cut-eq-some, All-take, All-drop,
  All-cut_last,
}
use simplex_go.Text.Numbers.{parse_uint16, parse_uint16-bounds}
use simplex_go.Text.Base64
use simplex_go.Text.Query.{parse_query}
use simplex_go.Address.{
  SmpQueueUri, scheme, parse_port_suffix, parse_host_port, parse_version_range, Parts, split_uri,
  decode_sized, get_param, parse_parts, or_bad_uri, parse_smp_queue_uri,
}
use simplex_go.Address.Printed.{IsAddress}

decode_sized-sizes :
    (lo hi : ℕ) (s bs : Bytes)
    → decode_sized lo hi s ≡ some bs
    → (lo ≤ length bs) × (length bs ≤ hi) × All IsByte bs
unfolding decode_sized
decode_sized-sizes lo hi s bs h =
    let (cs, decoded, e) = >>?-eq-some (Base64.decode s) _ h in
    elim (Bool-cases (leb lo (length cs) && leb (length cs) hi)) [
      | inr wrong ↦ cc (rw wrong at e)
      | inl sized ↦
          let same : cs ≡ bs = some-injective (rw sized at e) in
          let low : lo ≤ length cs = ground arith in
          let high : length cs ≤ hi = ground arith in
          subst (λ (x : Bytes). (lo ≤ length x) × (length x ≤ hi) × All IsByte x) same
            (low, high, Base64.decode-IsByte s cs decoded)
    ]

parse_version_range-bounds :
    (s : Bytes) (r : VersionRange)
    → parse_version_range s ≡ some r
    → (r.min ≤ r.max) × (r.max ≤ 65535)
unfolding parse_version_range
parse_version_range-bounds s r h = elim (Option-cases (cut b'-' s)) [
  | inl single ↦
      let (v, found, e) = >>?-eq-some (parse_uint16 s) _ (rw (single, parse_version_range) at h) in
      let top = parse_uint16-bounds s v found in
      subst (λ (x : VersionRange). (x.min ≤ x.max) × (x.max ≤ 65535)) (some-injective e)
        (omega arith)
  | inr ((min_str, max_str), both) ↦
      let (lo, _, rest) =
        >>?-eq-some (parse_uint16 min_str) _ (rw (both, parse_version_range) at h) in
      let (hi, found, e) = >>?-eq-some (parse_uint16 max_str) _ rest in
      let top = parse_uint16-bounds max_str hi found in
      elim (Bool-cases (ltb hi lo)) [
        | inl empty ↦ cc (rw empty at e)
        | inr order ↦
            let range : some (record { min = lo; max = hi }) ≡ some r = rw order at e in
            subst (λ (x : VersionRange). (x.min ≤ x.max) × (x.max ≤ 65535)) (some-injective range)
              (ltb→le _ _ order, top)
      ]
]

parse_port_suffix-bounds : (s : Bytes) (p : ℕ) → parse_port_suffix s ≡ some p → p ≤ 65535
unfolding parse_port_suffix
parse_port_suffix-bounds s p h = elim (Bool-cases (bytes_eq s [])) [
  | inl absent ↦ let same : 5223 ≡ p = some-injective (rw absent at h) in omega arith
  | inr given ↦ elim (Bool-cases (has_prefix s (codes ":"))) [
    | inr other_byte ↦ cc (rw (given, other_byte) at h)
    | inl colon ↦ parse_uint16-bounds (drop 1 s) p (rw (given, colon) at h)
  ]
]

-- The host is a part of the text, and the port is a uint16.
parse_host_port-parts :
    (P : ℕ → Type 0) (s host : Bytes) (port : ℕ)
    → All P s
    → parse_host_port s ≡ some (host, port)
    → All P host × (port ≤ 65535)
unfolding parse_host_port cut
parse_host_port-parts P s host port all h = elim (Bool-cases (has_prefix s (codes "["))) [
  | inl bracket ↦
      let ((up_to, rest), found, e) = >>?-eq-some (cut b']' s) _ (rw bracket at h) in
      let (p, suffix, same) = >>?-eq-some (parse_port_suffix rest) _ e in
      let (i, _, parts) = >>?-eq-some (index_byte s b']') _ found in
      let first : take i s ≡ up_to = ap (λ (r : Bytes × Bytes). r.0) (some-injective parts) in
      let inside : All P (drop 1 up_to) =
        All-drop P 1 up_to (subst (All P) first (All-take P i s all)) in
      subst (λ (r : Bytes × ℕ). All P r.0 × (r.1 ≤ 65535)) (some-injective same)
        (inside, parse_port_suffix-bounds rest p suffix)
  | inr plain ↦ elim (Option-cases (cut_last b':' s)) [
    | inl no_port ↦
        let same : some (s, 5223) ≡ some (host, port) = rw (plain, no_port) at h in
        subst (λ (r : Bytes × ℕ). All P r.0 × (r.1 ≤ 65535)) (some-injective same)
          (all, omega arith)
    | inr ((name, port_str), found) ↦
        let (p, number, same) = >>?-eq-some (parse_uint16 port_str) _ (rw (plain, found) at h) in
        subst (λ (r : Bytes × ℕ). All P r.0 × (r.1 ≤ 65535)) (some-injective same)
          (All-cut_last P b':' s name port_str found all, parse_uint16-bounds port_str p number)
  ]
]

split_uri-host :
    (s : Bytes) (parts : Parts)
    → split_uri s ≡ some parts
    → Lacks b'/' parts.host_port_str × Lacks b'#' parts.host_port_str
unfolding split_uri
split_uri-host s parts h = elim (Bool-cases (has_prefix s scheme)) [
  | inr foreign ↦ cc (rw foreign at h)
  | inl smp ↦
      let ((auth, frag), by_hash, h₁) =
        >>?-eq-some (cut b'#' (drop (length scheme) s)) _ (rw smp at h) in
      let ((fp, host_path), by_at, h₂) = >>?-eq-some (cut b'@' auth) _ h₁ in
      let ((host_port, sid), by_slash, e) = >>?-eq-some (cut b'/' host_path) _ h₂ in
      let (_, no_hash) = cut-eq-some b'#' _ auth frag by_hash in
      let (whole, _) = cut-eq-some b'@' auth fp host_path by_at in
      let (path, no_slash) = cut-eq-some b'/' host_path host_port sid by_slash in
      let after_at : Lacks b'#' (b'@' ∷ host_path) =
        All-append_right (λ b. b ≢ b'#') fp _ (subst (Lacks b'#') whole no_hash) in
      let in_host : Lacks b'#' host_port =
        All-append_left (λ b. b ≢ b'#') host_port _ (subst (Lacks b'#') path after_at.1) in
      subst (λ (x : Parts). Lacks b'/' x.host_port_str × Lacks b'#' x.host_port_str)
        (some-injective e) (no_slash, in_host)
]

parse_parts-IsAddress :
    (parts : Parts) (u : SmpQueueUri)
    → parse_parts parts ≡ some u
    → Lacks b'/' parts.host_port_str
    → Lacks b'#' parts.host_port_str
    → IsAddress u
unfolding parse_parts
parse_parts-IsAddress parts u h no_slash no_hash =
    let (fp, fp_read, h₁) = >>?-eq-some (decode_sized 32 32 parts.fp_str) _ h in
    let ((host, port), host_read, h₂) = >>?-eq-some (parse_host_port parts.host_port_str) _ h₁ in
    let (sid, sid_read, h₃) = >>?-eq-some (decode_sized 16 24 parts.sid_str) _ h₂ in
    let (q, _, h₄) = >>?-eq-some (parse_query parts.frag) _ h₃ in
    let (vr_str, _, h₅) = >>?-eq-some (get_param (codes "v") q) _ h₄ in
    let (vr, vr_read, h₆) = >>?-eq-some (parse_version_range vr_str) _ h₅ in
    let (dh_str, _, h₇) = >>?-eq-some (get_param (codes "dh") q) _ h₆ in
    let (dh, dh_read, e) = >>?-eq-some (decode_sized 32 32 dh_str) _ h₇ in
    let same = some-injective e in
    let (fp_low, fp_high, fp_bytes) = decode_sized-sizes 32 32 parts.fp_str fp fp_read in
    let (sid_low, sid_high, sid_bytes) = decode_sized-sizes 16 24 parts.sid_str sid sid_read in
    let (dh_low, dh_high, dh_bytes) = decode_sized-sizes 32 32 dh_str dh dh_read in
    let (order, top) = parse_version_range-bounds vr_str vr vr_read in
    let slash =
      parse_host_port-parts (λ b. b ≢ b'/') parts.host_port_str host port no_slash host_read in
    let hash =
      parse_host_port-parts (λ b. b ≢ b'#') parts.host_port_str host port no_hash host_read in
    subst IsAddress same (record {
      fingerprint_size = omega arith;
      fingerprint_bytes = fp_bytes;
      host_no_slash = slash.0;
      host_no_hash = hash.0;
      port_range = slash.1;
      sender_low = sid_low;
      sender_high = sid_high;
      sender_bytes = sid_bytes;
      min-le-max = order;
      max_range = top;
      dh_size = omega arith;
      dh_bytes = dh_bytes;
    })

or_bad_uri-eq-ok : (o : Option SmpQueueUri) (u : SmpQueueUri) → or_bad_uri o ≡ ok u → o ≡ some u
or_bad_uri-eq-ok none u h = cc
or_bad_uri-eq-ok (some v) u h = cc h

-- What parses has parts of the right sizes.
pub parse_smp_queue_uri-IsAddress :
    (s : Bytes) (u : SmpQueueUri) → parse_smp_queue_uri s ≡ ok u → IsAddress u
unfolding parse_smp_queue_uri
parse_smp_queue_uri-IsAddress s u h =
    let (parts, split, parsed) =
      >>?-eq-some (split_uri s) parse_parts (or_bad_uri-eq-ok (split_uri s >>? parse_parts) u h) in
    let (no_slash, no_hash) = split_uri-host s parts split in
    parse_parts-IsAddress parts u parsed no_slash no_hash
