-- ===== src/Base64.antt =====
-- The 8-bit to 6-bit encoding of src/b64.c. A byte is a number below 256, a buffer is a list of
-- bytes that starts at the pointer; a read past its end is a fault.
pub mod Bits
pub mod Block
pub mod Buffer
mod Tests
use Prim.Native.Nat.{bit_and, bit_or}
use gklib.Base.{
  ℕ, zero, suc, ◌+◌, ◌-◌, ◌*◌, ◌/◌, ◌%◌, ◌^◌, ◌<◌, Bool, true, false, ◌&&◌, Option, none, some,
  List, [], ◌∷◌, ◌++◌, ◌==◌, if◌then◌else◌, ltb,
}
use gklib.Base.Outcome.{sigerr, unset, Outcome, ok, raised, fault}

-- Three bytes, and four characters.
pub record Triple : Type 0 where
  pub a : ℕ
  pub b : ℕ
  pub c : ℕ

pub record Quad : Type 0 where
  pub w : ℕ
  pub x : ℕ
  pub y : ℕ
  pub z : ℕ

abbrev pub b64_offset : ℕ
b64_offset = 48

-- A store into an `unsigned char`.
abbrev pub byte : ℕ → ℕ
byte n = n % 256

-- `encodeblock`.
unfoldable pub encode_block : Triple → Quad
encode_block i = record {
  w = byte (byte (i.a / 2 ^ 2) + b64_offset);
  x = byte (byte (bit_or (bit_and i.a 0x03 * 2 ^ 4) (i.b / 2 ^ 4)) + b64_offset);
  y = byte (byte (bit_or (bit_and i.b 0x0f * 2 ^ 2) (i.c / 2 ^ 6)) + b64_offset);
  z = byte (byte (bit_and i.c 0x3f) + b64_offset);
}

-- The first lines of `decodeblock`, which subtract the offset in the input buffer itself.
abbrev pub remove_offset : ℕ → ℕ
remove_offset n = byte (n + 256 - b64_offset)

unfoldable pub shift_block : Quad → Quad
shift_block i = record {
  w = remove_offset i.w;
  x = remove_offset i.x;
  y = remove_offset i.y;
  z = remove_offset i.z;
}

-- The other lines of `decodeblock`.
unfoldable pub join_block : Quad → Triple
join_block i = record {
  a = byte (bit_or (i.w * 2 ^ 2) (i.x / 2 ^ 4));
  b = byte (bit_or (i.x * 2 ^ 4) (i.y / 2 ^ 2));
  c = byte (bit_or (i.y * 2 ^ 6) i.z);
}

-- `decodeblock`: the output, and the input as it is left.
unfoldable pub decode_block : Quad → Triple × Quad
decode_block i = (join_block (shift_block i), shift_block i)

abbrev pub triple_bytes : Triple → List ℕ → List ℕ
triple_bytes t rest = t.a ∷ t.b ∷ t.c ∷ rest

abbrev pub quad_bytes : Quad → List ℕ → List ℕ
quad_bytes q rest = q.w ∷ q.x ∷ q.y ∷ q.z ∷ rest

-- The loop of `GKEncodeBase64`, with the rounds left and `inbuffer + i`; `none` is a read past the
-- end. It gives what is written from `outbuffer + j` on, the final `'\0'` included.
unfoldable pub encode_loop : ℕ → List ℕ → Option (List ℕ)
encode_loop zero rest = some (0 ∷ [])
encode_loop (suc n) (a ∷ b ∷ c ∷ rest) = elim (encode_loop n rest) [
  | none ↦ none
  | some out ↦ some (quad_bytes (encode_block (record { a = a; b = b; c = c })) out)
]
encode_loop (suc n) _ = none

-- `GKEncodeBase64` for `nbytes >= 0`. The error report has no `return`: while `gk_exit_on_error`
-- is 0, as `exits` says, the loop runs all the same. The state is the input buffer.
unfoldable pub encode_base64 : Bool → ℕ → List ℕ → Outcome (List ℕ) (List ℕ)
encode_base64 exits nbytes inbuffer =
    if ltb 0 (nbytes % 3) && exits
    then raised sigerr unset inbuffer
    else elim (encode_loop ((nbytes + 2) / 3) inbuffer) [
      | none ↦ fault
      | some out ↦ ok out inbuffer
    ]

-- The loop of `GKDecodeBase64`: what is written from `outbuffer + j` on, and what is left in
-- `inbuffer + i`.
unfoldable pub decode_loop : ℕ → List ℕ → Option (List ℕ × List ℕ)
decode_loop zero rest = some ([], rest)
decode_loop (suc n) (w ∷ x ∷ y ∷ z ∷ rest) = elim (decode_loop n rest) [
  | none ↦ none
  | some (out, left) ↦
      let r = decode_block (record { w = w; x = x; y = y; z = z }) in
      some (triple_bytes r.0 out, quad_bytes r.1 left)
]
decode_loop (suc n) _ = none

-- `GKDecodeBase64` for `nbytes >= 0`.
unfoldable pub decode_base64 : Bool → ℕ → List ℕ → Outcome (List ℕ) (List ℕ)
decode_base64 exits nbytes inbuffer =
    if ltb 0 (nbytes % 4) && exits
    then raised sigerr unset inbuffer
    else elim (decode_loop ((nbytes + 3) / 4) inbuffer) [
      | none ↦ fault
      | some (out, left) ↦ ok out left
    ]
