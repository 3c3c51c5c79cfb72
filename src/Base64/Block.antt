-- ===== src/Base64/Block.antt =====
-- `encodeblock` and `decodeblock`.
use gklib.Base.{ℕ, ◌+◌, ◌-◌, ◌*◌, ◌/◌, ◌%◌, ◌≤◌, ◌<◌, ◌≡◌, ◌∙◌, arith}
use gklib.Base64.{
  Triple, Quad, byte, b64_offset, encode_block, shift_block, join_block, decode_block,
}
use gklib.Base64.Bits.{and_3, and_15, and_63, or_4, or_16, or_64}

pub record IsBytes (t : Triple) : Type 0 where
  pub a_byte : t.a < 256
  pub b_byte : t.b < 256
  pub c_byte : t.c < 256

-- The 64 characters from '0' on.
abbrev pub IsCode : ℕ → Type 0
IsCode n = (48 ≤ n) × (n < 112)

pub record IsCodes (q : Quad) : Type 0 where
  pub w_code : IsCode q.w
  pub x_code : IsCode q.x
  pub y_code : IsCode q.y
  pub z_code : IsCode q.z

-- The digits of the three bytes in base 64, each with the offset.
abbrev digits : Triple → Quad
digits t = record {
  w = t.a / 4 + 48;
  x = t.a % 4 * 16 + t.b / 16 + 48;
  y = t.b % 16 * 4 + t.c / 64 + 48;
  z = t.c % 64 + 48;
}

pub quad_path : {p q : Quad} → p.w ≡ q.w → p.x ≡ q.x → p.y ≡ q.y → p.z ≡ q.z → p ≡ q
quad_path e f g h = λ i. record { w = e i; x = f i; y = g i; z = h i }

pub triple_path : {p q : Triple} → p.a ≡ q.a → p.b ≡ q.b → p.c ≡ q.c → p ≡ q
triple_path e f g = λ i. record { a = e i; b = f i; c = g i }

pub encode_block-digits : (t : Triple) → IsBytes t → encode_block t ≡ digits t
unfolding encode_block
encode_block-digits t h =
    let p = h.a_byte in
    let q = h.b_byte in
    let r = h.c_byte in
    quad_path (omega arith)
      (rw (and_3 t.a p, or_16 (t.a % 4) (t.b / 16) (omega arith) (omega arith)) (omega arith))
      (rw (and_15 t.b q, or_4 (t.b % 16) (t.c / 64) (omega arith) (omega arith)) (omega arith))
      (rw (and_63 t.c r) (omega arith))

-- The bytes of four 6-bit digits.
abbrev bytes_of : Quad → Triple
bytes_of q = record {
  a = byte (q.w * 4 + q.x / 16);
  b = byte (q.x * 16 + q.y / 4);
  c = byte (q.y * 64 + q.z);
}

shift_block-code : (n : ℕ) → IsCode n → byte (n + 256 - b64_offset) ≡ n - 48
shift_block-code n h = omega arith

abbrev shifted : Quad → Quad
shifted q = record { w = q.w - 48; x = q.x - 48; y = q.y - 48; z = q.z - 48 }

pub shift_block-codes : (q : Quad) → IsCodes q → shift_block q ≡ shifted q
unfolding shift_block
shift_block-codes q h =
    quad_path (shift_block-code q.w h.w_code) (shift_block-code q.x h.x_code)
      (shift_block-code q.y h.y_code) (shift_block-code q.z h.z_code)

join_block-bytes :
    (q : Quad) → q.w < 64 → q.x < 64 → q.y < 64 → q.z < 64 → join_block q ≡ bytes_of q
unfolding join_block
join_block-bytes q hw hx hy hz =
    triple_path (rw (or_4 q.w (q.x / 16) hw (omega arith)))
      (rw (or_16 q.x (q.y / 4) hx (omega arith))) (rw (or_64 q.y q.z hy hz))

pub decode_block-codes : (q : Quad) → IsCodes q → (decode_block q).0 ≡ bytes_of (shifted q)
unfolding decode_block
decode_block-codes q h =
    let a = h.w_code in
    let b = h.x_code in
    let c = h.y_code in
    let d = h.z_code in
    rw (shift_block-codes q h)
      (join_block-bytes (shifted q) (omega arith) (omega arith) (omega arith) (omega arith))

-- Every character that `encodeblock` writes lies in the range of the 64 codes.
pub encode_block-IsCodes : (t : Triple) → IsBytes t → IsCodes (encode_block t)
encode_block-IsCodes t h =
    let p = h.a_byte in
    let q = h.b_byte in
    let r = h.c_byte in
    rw (encode_block-digits t h) (record {
      w_code = omega arith;
      x_code = omega arith;
      y_code = omega arith;
      z_code = omega arith;
    })

-- `decodeblock` gives back the three bytes that `encodeblock` was given.
pub decode_block-encode_block : (t : Triple) → IsBytes t → (decode_block (encode_block t)).0 ≡ t
decode_block-encode_block t h =
    let p = h.a_byte in
    let q = h.b_byte in
    let r = h.c_byte in
    decode_block-codes (encode_block t) (encode_block-IsCodes t h)
    ∙ rw (encode_block-digits t h) (triple_path (omega arith) (omega arith) (omega arith))

-- `encodeblock` gives back the four characters, if they are codes, that `decodeblock` was given.
pub encode_block-decode_block : (q : Quad) → IsCodes q → encode_block (decode_block q).0 ≡ q
encode_block-decode_block q h =
    let a = h.w_code in
    let b = h.x_code in
    let c = h.y_code in
    let d = h.z_code in
    rw (decode_block-codes q h) (
      encode_block-digits (bytes_of (shifted q)) (omega arith)
      ∙ quad_path (omega arith) (omega arith) (omega arith) (omega arith))
