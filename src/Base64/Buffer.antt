-- ===== src/Base64/Buffer.antt =====
-- `GKEncodeBase64` and `GKDecodeBase64` on whole buffers.
use gklib.Base.{
  ℕ, zero, suc, ◌+◌, ◌*◌, ◌/◌, ◌%◌, ◌<◌, ◌≡◌, ◌≢◌, refl, ap, ◌∙◌, arith, List, [], ◌∷◌, none, some,
  length, get_elem?, true, false, ltb,
}
use gklib.Base.Outcome.{sigerr, unset, raised, fault}
use gklib.Base64.{
  Triple, Quad, encode_block, decode_block, encode_loop, encode_base64, decode_loop, quad_bytes,
  triple_bytes,
}
use gklib.Base64.Block.{decode_block-encode_block}

abbrev pub AreBytes : List ℕ → Type 0
AreBytes [] = Unit
AreBytes (x ∷ xs) = (x < 256) × AreBytes xs

-- What the loops do with a buffer of `3 * n` bytes: the written text, and the state in which the
-- decoder leaves it.
pub record Encoded (n : ℕ) (inbuffer out left : List ℕ) : Type 0 where
  pub encodes : encode_loop n inbuffer ≡ some out
  pub decodes : decode_loop n out ≡ some (inbuffer, left)
  pub size : length out ≡ 4 * n + 1
  pub final : get_elem? out (4 * n) ≡ some 0

encode_loop-next :
    (n a b c : ℕ) (rest out : List ℕ)
    → encode_loop n rest ≡ some out
    → encode_loop (suc n) (a ∷ b ∷ c ∷ rest)
      ≡ some (quad_bytes (encode_block (record { a = a; b = b; c = c })) out)
unfolding encode_loop
encode_loop-next n a b c rest out h = rw h

decode_loop-next :
    (n : ℕ) (q : Quad) (rest out left : List ℕ)
    → decode_loop n rest ≡ some (out, left)
    → decode_loop (suc n) (quad_bytes q rest)
      ≡ some (triple_bytes (decode_block q).0 out, quad_bytes (decode_block q).1 left)
unfolding decode_loop
decode_loop-next n q rest out left h = rw h

final_zero :
    (n : ℕ) (q : Quad) (out : List ℕ)
    → get_elem? out (4 * n) ≡ some 0
    → get_elem? (quad_bytes q out) (4 * suc n) ≡ some 0
final_zero n q out h = let e : 4 * suc n ≡ suc (suc (suc (suc (4 * n)))) = omega arith in rw e h

pub loop-Encoded :
    (n : ℕ) (inbuffer : List ℕ)
    → length inbuffer ≡ 3 * n
    → AreBytes inbuffer
    → (out : List ℕ) × (left : List ℕ) × Encoded n inbuffer out left
unfolding encode_loop decode_loop
loop-Encoded zero [] e h =
    (0 ∷ [], 0 ∷ [], record { encodes = refl; decodes = refl; size = refl; final = refl })
loop-Encoded zero (a ∷ rest) e h = absurd (omega arith)
loop-Encoded (suc n) [] e h = absurd (omega arith)
loop-Encoded (suc n) (a ∷ []) e h = absurd (omega arith)
loop-Encoded (suc n) (a ∷ b ∷ []) e h = absurd (omega arith)
loop-Encoded (suc n) (a ∷ b ∷ c ∷ rest) e h =
    let (out, left, r) = loop-Encoded n rest (omega arith) h.1.1.1 in
    let t : Triple = record { a = a; b = b; c = c } in
    let q = encode_block t in
    let back =
      decode_block-encode_block t (record { a_byte = h.0; b_byte = h.1.0; c_byte = h.1.1.0 }) in
    (
      quad_bytes q out,
      quad_bytes (decode_block q).1 left,
      record {
        encodes = encode_loop-next n a b c rest out r.encodes;
        decodes =
            decode_loop-next n q out rest left r.decodes
            ∙ ap (λ (u : Triple). some (triple_bytes u rest, quad_bytes (decode_block q).1 left))
                back;
        size = omega (arith, r.size);
        final = final_zero n q out r.final;
      },
    )

encode_loop-short : (n : ℕ) (l : List ℕ) → length l < 3 * n → encode_loop n l ≡ none
unfolding encode_loop
encode_loop-short zero l h = absurd (omega arith)
encode_loop-short (suc n) [] h = refl
encode_loop-short (suc n) (a ∷ []) h = refl
encode_loop-short (suc n) (a ∷ b ∷ []) h = refl
encode_loop-short (suc n) (a ∷ b ∷ c ∷ rest) h = rw (encode_loop-short n rest (omega arith))

-- A length that is no multiple of 3 is refused with SIGERR while errors exit; while they do not,
-- the loop goes on and reads past the end of a buffer of that length.
pub encode_base64-partial :
    (nbytes : ℕ) (inbuffer : List ℕ)
    → nbytes % 3 ≢ 0
    → length inbuffer ≡ nbytes
    → (encode_base64 true nbytes inbuffer ≡ raised sigerr unset inbuffer)
      × (encode_base64 false nbytes inbuffer ≡ fault)
unfolding encode_base64
encode_base64-partial nbytes inbuffer h e =
    let odd : ltb 0 (nbytes % 3) ≡ true = ground arith in
    (rw odd, rw (odd, encode_loop-short ((nbytes + 2) / 3) inbuffer (omega arith)))
