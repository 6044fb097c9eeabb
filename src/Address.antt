-- ===== src/Address.antt =====
-- smp/queue_uri.go: the address of a queue, ParseSMPQueueURI and its helpers, and String. Every error
-- of the parser is behind ErrBadQueueURI: a helper's error is `none`, and its text is left out.
pub mod Printed
pub mod Accepted
use simplex_go.Base.{
  ℕ, ◌&&◌, Option, none, some, [], ◌∷◌, ◌++◌, ltb, leb, ◌==◌, if◌then◌else◌, length, drop, Bytes,
  codes, bytes_eq, has_prefix, Result, bad_queue_uri, sentinel, ok, err,
}
use simplex_go.Dial.{x25519_key_size}
use simplex_go.Handshake.{VersionRange}
use simplex_go.Text.Strings.{◌>>?◌, cut, cut_last, trim_prefix, trim_suffix}
use simplex_go.Text.Numbers.{parse_uint16, decimal}
use simplex_go.Text.Base64
use simplex_go.Text.Query.{Values, parse_query, get, encode_values}

pub record SmpQueueUri : Type 0 where
  pub server_fingerprint : Bytes
  pub host : Bytes
  pub port : ℕ
  pub sender_id : Bytes
  pub client_vrange : VersionRange
  pub dh_pub_key : Bytes

abbrev pub default_port : ℕ
default_port = 5223

abbrev pub scheme : Bytes
scheme = codes "smp://"

unfoldable pub parse_port_suffix : Bytes → Option ℕ
parse_port_suffix s =
    if bytes_eq s []
    then some default_port
    else if has_prefix s (codes ":")
    then parse_uint16 (drop 1 s)
    else none

-- The host and the port.
unfoldable pub parse_host_port : Bytes → Option (Bytes × ℕ)
parse_host_port s =
    if has_prefix s (codes "[")
    then (cut b']' s >>? λ (up_to, rest).
        parse_port_suffix rest >>? λ port. some (drop 1 up_to, port))
    else (elim (cut_last b':' s) [
      | none ↦ some (s, default_port)
      | some (host, port_str) ↦ parse_uint16 port_str >>? λ port. some (host, port)
    ])

unfoldable pub parse_version_range : Bytes → Option VersionRange
parse_version_range s = elim (cut b'-' s) [
  | none ↦ parse_uint16 s >>? λ v. some (record { min = v; max = v })
  | some (min_str, max_str) ↦ parse_uint16 min_str >>? λ min_v. parse_uint16 max_str >>? λ max_v.
      if ltb max_v min_v then none else some (record { min = min_v; max = max_v })
]

-- The texts of the parts: fingerprint, host and port, sender id, and the query of the fragment.
pub record Parts : Type 0 where
  pub fp_str : Bytes
  pub host_port_str : Bytes
  pub sid_str : Bytes
  pub frag : Bytes

unfoldable pub split_uri : Bytes → Option Parts
split_uri s =
    if has_prefix s scheme
    then (cut b'#' (drop (length scheme) s) >>? λ (auth_path, frag).
        cut b'@' auth_path >>? λ (fp_str, host_path).
        cut b'/' host_path >>? λ (host_port_str, sid_str). some (record {
          fp_str = fp_str;
          host_port_str = host_port_str;
          sid_str = trim_suffix sid_str b'/';
          frag = trim_prefix (trim_prefix frag (codes "/")) (codes "?");
        }))
    else none

-- base64.RawURLEncoding.DecodeString with the check of the length that follows it.
unfoldable pub decode_sized : (lo hi : ℕ) → Bytes → Option Bytes
decode_sized lo hi s =
    Base64.decode s >>? λ bs. if leb lo (length bs) && leb (length bs) hi then some bs else none

-- q.Get(key), which must not be empty.
unfoldable pub get_param : Bytes → Values → Option Bytes
get_param key q = let value = get key q in if bytes_eq value [] then none else some value

unfoldable pub parse_parts : Parts → Option SmpQueueUri
parse_parts parts = decode_sized 32 32 parts.fp_str >>? λ fp.
    parse_host_port parts.host_port_str >>? λ (host, port).
    decode_sized 16 24 parts.sid_str >>? λ sid. parse_query parts.frag >>? λ q.
    get_param (codes "v") q >>? λ vr_str. parse_version_range vr_str >>? λ vr.
    get_param (codes "dh") q >>? λ dh_str.
    decode_sized x25519_key_size x25519_key_size dh_str >>? λ dh. some (record {
      server_fingerprint = fp;
      host = host;
      port = port;
      sender_id = sid;
      client_vrange = vr;
      dh_pub_key = dh;
    })

abbrev pub or_bad_uri : Option SmpQueueUri → Result SmpQueueUri
or_bad_uri none = err (sentinel bad_queue_uri)
or_bad_uri (some u) = ok u

unfoldable pub parse_smp_queue_uri : Bytes → Result SmpQueueUri
parse_smp_queue_uri s = or_bad_uri (split_uri s >>? parse_parts)

abbrev pub version_range_string : VersionRange → Bytes
version_range_string r = decimal r.min ++ (b'-' ∷ decimal r.max)

-- The values q of String: Encode puts the key dh before v.
abbrev pub uri_values : SmpQueueUri → Values
uri_values u =
    (codes "dh", Base64.encode u.dh_pub_key)
    ∷ (codes "v", version_range_string u.client_vrange)
    ∷ []

abbrev pub printed_port : ℕ → ℕ
printed_port port = if port == 0 then default_port else port

unfoldable pub to_string : SmpQueueUri → Bytes
to_string u =
    scheme
    ++ (Base64.encode u.server_fingerprint
        ++ (b'@'
            ∷ (u.host
                ++ (b':'
                    ∷ (decimal (printed_port u.port)
                        ++ (b'/'
                            ∷ (Base64.encode u.sender_id
                                ++ (codes "#/?" ++ encode_values (uri_values u)))))))))
