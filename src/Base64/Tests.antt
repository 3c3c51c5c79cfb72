-- ===== src/Base64/Tests.antt =====
-- Runs of the encoding, and the theorems at concrete buffers.
use gklib.Base.{◌≡◌, refl, true, false, [], ◌∷◌, arith}
use gklib.Base.Outcome.{ok, raised, fault, sigerr, unset}
use gklib.Base64.{
  Triple, Quad, encode_block, decode_block, encode_loop, encode_base64, decode_loop, decode_base64,
  shift_block, join_block,
}
use gklib.Base64.Block.{
  IsCodes, encode_block-IsCodes, decode_block-encode_block, encode_block-decode_block,
}
use gklib.Base64.Buffer.{encode_base64-partial}

-- "Man" in the alphabet that starts at '0'.
encodes :
    encode_base64 true 3 (77 ∷ 97 ∷ 110 ∷ []) ≡ ok (67 ∷ 70 ∷ 53 ∷ 94 ∷ 0 ∷ []) (77 ∷ 97 ∷ 110 ∷ [])
unfolding encode_base64 encode_loop encode_block
encodes = refl

decodes :
    decode_base64 true 4 (67 ∷ 70 ∷ 53 ∷ 94 ∷ 0 ∷ [])
    ≡ ok (77 ∷ 97 ∷ 110 ∷ []) (19 ∷ 22 ∷ 5 ∷ 46 ∷ 0 ∷ [])
unfolding decode_base64 decode_loop decode_block shift_block join_block
decodes = refl

abbrev man : Triple
man = record { a = 77; b = 97; c = 110 }

abbrev text : Quad
text = record { w = 67; x = 70; y = 53; z = 94 }

encode_block-IsCodes_example : IsCodes (encode_block man)
encode_block-IsCodes_example = encode_block-IsCodes man (omega arith)

decode_block-encode_block_example : (decode_block (encode_block man)).0 ≡ man
decode_block-encode_block_example = decode_block-encode_block man (omega arith)

encode_block-decode_block_example : encode_block (decode_block text).0 ≡ text
encode_block-decode_block_example = encode_block-decode_block text (omega arith)

encode_base64-partial_example :
    (encode_base64 true 2 (77 ∷ 97 ∷ []) ≡ raised sigerr unset (77 ∷ 97 ∷ []))
    × (encode_base64 false 2 (77 ∷ 97 ∷ []) ≡ fault)
encode_base64-partial_example = encode_base64-partial 2 (77 ∷ 97 ∷ []) (omega arith) refl
