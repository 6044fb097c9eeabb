-- ===== src/Tests/Addresses.antt =====
-- Addresses of queues of smp/queue_uri.go on small inputs.
use simplex_go.Base.{
  ℕ, ◌≤◌, ◌≡◌, refl, none, some, [], ◌∷◌, ◌++◌, arith, replicate, codes, bytes_eq, has_prefix,
  index_byte, bad_queue_uri, sentinel, ok, err,
}
use simplex_go.Text.Strings.{cut, last_index, cut_last}
use simplex_go.Text.Numbers.{parse_digits, parse_uint16}
use simplex_go.Text.Base64
use simplex_go.Text.Query.{parse_query, parse_pairs, parse_pair, split_on, query_unescape, unhex}
use simplex_go.Address.{
  SmpQueueUri, parse_port_suffix, parse_host_port, parse_version_range, split_uri,
  parse_smp_queue_uri, to_string,
}
use simplex_go.Address.Printed.{IsPrintable, parse_smp_queue_uri-to_string}

abbrev pub address : SmpQueueUri
address = record {
  server_fingerprint = replicate 32 1;
  host = codes "smp.example";
  port = 443;
  sender_id = replicate 16 255;
  client_vrange = record { min = 1; max = 4 };
  dh_pub_key = replicate 32 3;
}

at_port : (p : ℕ) → p ≤ 65535 → IsPrintable (record address { port = p })
unfolding has_prefix
at_port p small = (
  record {
    fingerprint_size = refl;
    fingerprint_bytes = omega arith;
    host_no_slash = omega arith;
    host_no_hash = omega arith;
    port_range = small;
    sender_low = omega arith;
    sender_high = omega arith;
    sender_bytes = omega arith;
    min-le-max = omega arith;
    max_range = omega arith;
    dh_size = refl;
    dh_bytes = omega arith;
  },
  refl,
)

address-IsPrintable : IsPrintable address
address-IsPrintable = at_port 443 (omega arith)

pub parse_address : parse_smp_queue_uri (to_string address) ≡ ok address
parse_address = parse_smp_queue_uri-to_string address address-IsPrintable

-- The same queue at another port.
abbrev pub mirror : SmpQueueUri
mirror = record address { port = 5223 }

pub parse_mirror : parse_smp_queue_uri (to_string mirror) ≡ ok mirror
parse_mirror = parse_smp_queue_uri-to_string mirror (at_port 5223 (omega arith))

-- The brackets of an IPv6 host are taken off, and a port without a number is an error.
parse_hosts :
    (parse_host_port (codes "[::1]:5224") ≡ some (codes "::1", 5224))
    × (parse_host_port (codes "h") ≡ some (codes "h", 5223))
    × (parse_host_port (codes "h:") ≡ none)
    × (parse_host_port (codes "h:65536") ≡ none)
unfolding parse_host_port parse_port_suffix has_prefix bytes_eq cut cut_last last_index index_byte
    parse_uint16 parse_digits
parse_hosts = (refl, refl, refl, refl)

parse_versions :
    (parse_version_range (codes "2-10") ≡ some (record { min = 2; max = 10 }))
    × (parse_version_range (codes "3-2") ≡ none)
unfolding parse_version_range cut index_byte parse_uint16 parse_digits
parse_versions = (refl, refl)

-- Base64 passes over a line break, and refuses padding.
decode_texts :
    (Base64.decode (codes "AQ" ++ (10 ∷ codes "I")) ≡ some (1 ∷ 2 ∷ []))
    × (Base64.decode (codes "AQ==") ≡ none)
    × (Base64.decode (codes "A") ≡ none)
unfolding Base64.decode Base64.sextets Base64.sextet Base64.unpack
decode_texts = (refl, refl, refl)

parse_params :
    parse_query (codes "v=1%2d4&&k=a+b")
    ≡ some ((codes "v", codes "1-4") ∷ (codes "k", codes "a b") ∷ [])
unfolding parse_query parse_pairs parse_pair split_on query_unescape unhex cut index_byte bytes_eq
parse_params = refl

parse_foreign : parse_smp_queue_uri (codes "https://x") ≡ err (sentinel bad_queue_uri)
unfolding parse_smp_queue_uri split_uri has_prefix
parse_foreign = refl
