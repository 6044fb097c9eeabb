-- ===== src/Address/Printed.antt =====
-- That the parser reads what String prints.
use simplex_go.Base.{
  ℕ, ◌≤◌, ◌≡◌, refl, sym, ap, ◌∙◌, ◌≢◌, inl, inr, true, false, some, [], ◌∷◌, ◌++◌, append_assoc,
  arith, leb, le→ltb, Bool-cases, length, All, Bytes, IsByte, codes, bytes_eq, has_prefix,
  bytes_eq_iff, All-append, ok,
}
use simplex_go.Handshake.{VersionRange}
use simplex_go.Text.Plain.{IsPlain, Lacks-plain}
use simplex_go.Text.Strings.{
  some-injective, trim_prefix, Lacks, ne_test, cut-append, cut_last-append, trim_suffix-absent,
}
use simplex_go.Text.Numbers.{decimal, parse_uint16-decimal, decimal-IsPlain, decimal-Lacks_dash}
use simplex_go.Text.Base64
use simplex_go.Text.Query.{
  parse_query, get, encode_values, parse_query-encode_values, bytes_eq-ne_nil,
}
use simplex_go.Address.{
  SmpQueueUri, scheme, parse_host_port, parse_version_range, Parts, split_uri, decode_sized,
  get_param, parse_parts, parse_smp_queue_uri, version_range_string, uri_values, printed_port,
  to_string,
}

-- The sizes of the parts of an address, a version range that is not empty, and a host without the
-- bytes that end it.
pub record IsAddress (u : SmpQueueUri) : Type 0 where
  pub fingerprint_size : length u.server_fingerprint ≡ 32
  pub fingerprint_bytes : All IsByte u.server_fingerprint
  pub host_no_slash : Lacks b'/' u.host
  pub host_no_hash : Lacks b'#' u.host
  pub port_range : u.port ≤ 65535
  pub sender_low : 16 ≤ length u.sender_id
  pub sender_high : length u.sender_id ≤ 24
  pub sender_bytes : All IsByte u.sender_id
  pub min-le-max : u.client_vrange.min ≤ u.client_vrange.max
  pub max_range : u.client_vrange.max ≤ 65535
  pub dh_size : length u.dh_pub_key ≡ 32
  pub dh_bytes : All IsByte u.dh_pub_key

-- An address whose host is not taken for one in brackets.
abbrev pub IsPrintable : SmpQueueUri → Type 0
IsPrintable u = IsAddress u × (has_prefix u.host (codes "[") ≡ false)

decode_sized-encode :
    (lo hi : ℕ) (bs : Bytes)
    → All IsByte bs
    → lo ≤ length bs
    → length bs ≤ hi
    → decode_sized lo hi (Base64.encode bs) ≡ some bs
unfolding decode_sized
decode_sized-encode lo hi bs all low high =
    let p : leb lo (length bs) ≡ true = ground arith in
    let q : leb (length bs) hi ≡ true = ground arith in rw (Base64.decode-encode bs all, p, q)

parse_version_range-string :
    (r : VersionRange)
    → r.min ≤ r.max
    → r.max ≤ 65535
    → parse_version_range (version_range_string r) ≡ some r
unfolding parse_version_range
parse_version_range-string r order top = rw (
  cut-append b'-' (decimal r.min) (decimal r.max) (decimal-Lacks_dash r.min),
  parse_version_range,
  parse_uint16-decimal r.min (omega arith),
  parse_uint16-decimal r.max top,
  le→ltb r.max r.min order,
)

has_prefix-bracket :
    (host rest : Bytes) (c : ℕ)
    → has_prefix host (codes "[") ≡ false
    → c ≢ b'['
    → has_prefix (host ++ (c ∷ rest)) (codes "[") ≡ false
unfolding has_prefix
has_prefix-bracket [] rest c h ne = rw (ne_test c b'[' ne)
has_prefix-bracket (x ∷ xs) rest c h ne = h

parse_host_port-printed :
    (host : Bytes) (port : ℕ)
    → has_prefix host (codes "[") ≡ false
    → port ≤ 65535
    → parse_host_port (host ++ (b':' ∷ decimal port)) ≡ some (host, port)
unfolding parse_host_port
parse_host_port-printed host port h top =
    let lacks = Lacks-plain b':' (decimal port) refl (decimal-IsPlain port) in
    rw (
      has_prefix-bracket host (decimal port) b':' h (λ e. cc e),
      cut_last-append b':' host (decimal port) lacks,
      parse_host_port,
      parse_uint16-decimal port top,
    )

-- The query as the parser finds it.
query_of : SmpQueueUri → Bytes
query_of u = encode_values (uri_values u)

version_range-IsPlain : (r : VersionRange) → All IsPlain (version_range_string r)
version_range-IsPlain r =
    All-append IsPlain (decimal r.min) _ (decimal-IsPlain r.min) (refl, decimal-IsPlain r.max)

parse_query-printed :
    (u : SmpQueueUri) → All IsByte u.dh_pub_key → parse_query (query_of u) ≡ some (uri_values u)
unfolding query_of
parse_query-printed u all =
    parse_query-encode_values (codes "dh", Base64.encode u.dh_pub_key)
      ((codes "v", version_range_string u.client_vrange) ∷ [])
      (
        ((refl, (refl, tt)), Base64.encode-IsPlain u.dh_pub_key all),
        (((refl, tt), version_range-IsPlain u.client_vrange), tt),
      )

encode-ne_nil :
    (bs : Bytes) → All IsByte bs → length bs ≡ 32 → bytes_eq (Base64.encode bs) [] ≡ false
unfolding Base64.decode Base64.sextets Base64.unpack
encode-ne_nil bs all size = elim (Bool-cases (bytes_eq (Base64.encode bs) [])) [
  | inr filled ↦ filled
  | inl empty ↦
      let e = (bytes_eq_iff (Base64.encode bs) []).0 empty in
      let none_left : some [] ≡ some bs = ap Base64.decode (sym e) ∙ Base64.decode-encode bs all in
      let gone : [] ≡ bs = some-injective none_left in absurd (omega (arith, ap length gone, size))
]

get_params :
    (u : SmpQueueUri)
    → All IsByte u.dh_pub_key
    → length u.dh_pub_key ≡ 32
    → (get_param (codes "v") (uri_values u) ≡ some (version_range_string u.client_vrange))
      × (get_param (codes "dh") (uri_values u) ≡ some (Base64.encode u.dh_pub_key))
unfolding get_param get bytes_eq
get_params u all size = (
  rw (bytes_eq-ne_nil (decimal u.client_vrange.min) b'-' (decimal u.client_vrange.max)),
  rw (encode-ne_nil u.dh_pub_key all size),
)

-- The texts that split_uri finds in a printed address.
parts_of : SmpQueueUri → Parts
unfolding query_of
parts_of u = record {
  fp_str = Base64.encode u.server_fingerprint;
  host_port_str = u.host ++ (b':' ∷ decimal (printed_port u.port));
  sid_str = Base64.encode u.sender_id;
  frag = query_of u;
}

-- The printed address, bracketed as the parser cuts it.
to_string-parts :
    (u : SmpQueueUri)
    → to_string u
      ≡ scheme
        ++ ((Base64.encode u.server_fingerprint
              ++ (b'@'
                  ∷ ((u.host ++ (b':' ∷ decimal (printed_port u.port)))
                      ++ (b'/' ∷ Base64.encode u.sender_id))))
            ++ (b'#' ∷ b'/' ∷ b'?' ∷ query_of u))
unfolding to_string query_of
to_string-parts u = simp append_assoc

split_uri-eq-some :
    (auth fp host_port sid query : Bytes)
    → auth ≡ fp ++ (b'@' ∷ (host_port ++ (b'/' ∷ sid)))
    → Lacks b'#' auth
    → Lacks b'@' fp
    → Lacks b'/' host_port
    → Lacks b'/' sid
    → split_uri (scheme ++ (auth ++ (b'#' ∷ b'/' ∷ b'?' ∷ query)))
      ≡ some (record { fp_str = fp; host_port_str = host_port; sid_str = sid; frag = query })
unfolding split_uri has_prefix trim_prefix
split_uri-eq-some auth fp host_port sid query e no_hash no_at no_slash no_end = rw (
  cut-append b'#' auth (b'/' ∷ b'?' ∷ query) no_hash,
  e,
  cut-append b'@' fp (host_port ++ (b'/' ∷ sid)) no_at,
  cut-append b'/' host_port sid no_slash,
  trim_suffix-absent b'/' sid no_end,
)

split_uri-printed : (u : SmpQueueUri) → IsPrintable u → split_uri (to_string u) ≡ some (parts_of u)
unfolding parts_of
split_uri-printed u h =
    let fp = Base64.encode u.server_fingerprint in
    let sid = Base64.encode u.sender_id in
    let port = decimal (printed_port u.port) in
    let host_port : Bytes = u.host ++ (b':' ∷ port) in
    let plain_fp = Base64.encode-IsPlain u.server_fingerprint h.0.fingerprint_bytes in
    let plain_sid = Base64.encode-IsPlain u.sender_id h.0.sender_bytes in
    let plain_port = decimal-IsPlain (printed_port u.port) in
    let no_slash : Lacks b'/' host_port =
      All-append (λ b. b ≢ b'/') u.host (b':' ∷ port) h.0.host_no_slash
        (λ e. cc e, Lacks-plain b'/' port refl plain_port) in
    let no_hash : Lacks b'#' (fp ++ (b'@' ∷ (host_port ++ (b'/' ∷ sid)))) =
      All-append (λ b. b ≢ b'#') fp (b'@' ∷ (host_port ++ (b'/' ∷ sid)))
        (Lacks-plain b'#' fp refl plain_fp)
        (
          λ e. cc e,
          All-append (λ b. b ≢ b'#') host_port (b'/' ∷ sid)
              (All-append (λ b. b ≢ b'#') u.host (b':' ∷ port) h.0.host_no_hash
                (λ e. cc e, Lacks-plain b'#' port refl plain_port))
              (λ e. cc e, Lacks-plain b'#' sid refl plain_sid),
        ) in
    ap split_uri (to_string-parts u)
    ∙ split_uri-eq-some (fp ++ (b'@' ∷ (host_port ++ (b'/' ∷ sid)))) fp host_port sid (query_of u)
        refl no_hash (Lacks-plain b'@' fp refl plain_fp) no_slash
        (Lacks-plain b'/' sid refl plain_sid)

pub parse_smp_queue_uri-to_string :
    (u : SmpQueueUri)
    → IsPrintable u
    → parse_smp_queue_uri (to_string u) ≡ ok (record u { port = printed_port u.port })
unfolding parse_smp_queue_uri parse_parts parts_of
parse_smp_queue_uri-to_string u h =
    let (v, dh) = get_params u h.0.dh_bytes h.0.dh_size in
    rw (
      split_uri-printed u h,
      decode_sized-encode 32 32 u.server_fingerprint h.0.fingerprint_bytes
          (omega (arith, h.0.fingerprint_size)) (omega (arith, h.0.fingerprint_size)),
      parse_host_port-printed u.host (printed_port u.port) h.1 (ground (arith, h.0.port_range)),
      decode_sized-encode 16 24 u.sender_id h.0.sender_bytes h.0.sender_low h.0.sender_high,
      parse_query-printed u h.0.dh_bytes,
      v,
      parse_version_range-string u.client_vrange h.0.min-le-max h.0.max_range,
      dh,
      decode_sized-encode 32 32 u.dh_pub_key h.0.dh_bytes (omega (arith, h.0.dh_size))
          (omega (arith, h.0.dh_size)),
    )
