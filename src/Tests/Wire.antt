-- ===== src/Tests/Wire.antt =====
-- The codec of smp/encoding.go on small inputs.
use simplex_go.Base.{◌≡◌, refl, List, [], ◌∷◌, arith, Bytes, ok}
use simplex_go.Wire.Encoder.{encode}
use simplex_go.Wire.Decoder
use simplex_go.Wire.Decoder.{new_decoder}
use simplex_go.Wire.Fields.{
  Field, word16, short, kinds, AllFit, read, read_all, write_all, read_all-write_all,
  write_all-read_all,
}

abbrev two_fields : List Field
two_fields = (word16, 258) ∷ (short, 7 ∷ 8 ∷ []) ∷ []

abbrev two_bytes : Bytes
two_bytes = 1 ∷ 2 ∷ 2 ∷ 7 ∷ 8 ∷ 9 ∷ []

read_two : (read_all (word16 ∷ short ∷ []) (new_decoder two_bytes)).0 ≡ ok (two_fields, 9 ∷ [])
unfolding read_all read Decoder.word16 Decoder.short_string Decoder.need Decoder.tail
    Decoder.remaining
read_two = refl

read_all-write_all_example :
    (bs : Bytes) × (encode (write_all two_fields (9 ∷ [])) ≡ ok bs)
    × ((read_all (word16 ∷ short ∷ []) (new_decoder bs)).0 ≡ ok (two_fields, 9 ∷ []))
read_all-write_all_example = read_all-write_all two_fields (9 ∷ []) (omega arith)

write_all-read_all_example :
    (kinds two_fields ≡ word16 ∷ short ∷ [])
    × AllFit two_fields
    × (encode (write_all two_fields (9 ∷ [])) ≡ ok two_bytes)
write_all-read_all_example =
    write_all-read_all (word16 ∷ short ∷ []) two_bytes two_fields (9 ∷ []) (omega arith) read_two
