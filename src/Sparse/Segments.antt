-- ===== src/Sparse/Segments.antt =====
-- A stretch of an array under a write.
use gklib.Base.{
  ℕ, zero, suc, ◌+◌, ◌≤◌, ◌<◌, ◌≡◌, refl, ap, ◌⊎◌, inl, inr, List, [], ◌∷◌, ◌++◌, length, set, take,
  drop, arith,
}

module _ {A : Type 0} where
  -- The `n` elements from `c` on.
  abbrev pub stretch : ℕ → ℕ → List A → List A
  stretch c n xs = take n (drop c xs)

  take-set_after : (xs : List A) (n p : ℕ) (v : A) → n ≤ p → take n (set xs p v) ≡ take n xs
  take-set_after [] n p v h = refl
  take-set_after (x ∷ xs) zero p v h = refl
  take-set_after (x ∷ xs) (suc n) zero v h = absurd (omega arith)
  take-set_after (x ∷ xs) (suc n) (suc p) v h = ap (◌∷◌ x) (take-set_after xs n p v (omega arith))

  -- A write outside the stretch.
  pub stretch-set_apart :
      (xs : List A) (c n p : ℕ) (v : A)
      → (p < c) ⊎ (c + n ≤ p)
      → stretch c n (set xs p v) ≡ stretch c n xs
  stretch-set_apart [] c n p v h = refl
  stretch-set_apart (x ∷ xs) zero n p v (inl h) = absurd (omega arith)
  stretch-set_apart (x ∷ xs) zero n p v (inr h) = take-set_after (x ∷ xs) n p v (omega arith)
  stretch-set_apart (x ∷ xs) (suc c) n zero v h = refl
  stretch-set_apart (x ∷ xs) (suc c) n (suc p) v (inl h) =
      stretch-set_apart xs c n p v (inl (omega arith))
  stretch-set_apart (x ∷ xs) (suc c) n (suc p) v (inr h) =
      stretch-set_apart xs c n p v (inr (omega arith))

  take-set_end :
      (xs : List A) (n : ℕ) (v : A)
      → n < length xs
      → take (suc n) (set xs n v) ≡ take n xs ++ v ∷ []
  take-set_end [] n v h = absurd (omega arith)
  take-set_end (x ∷ xs) zero v h = refl
  take-set_end (x ∷ xs) (suc n) v h = ap (◌∷◌ x) (take-set_end xs n v (omega arith))

  -- A write at the end of the stretch.
  pub stretch-set_end :
      (xs : List A) (c n p : ℕ) (v : A)
      → p ≡ c + n
      → p < length xs
      → stretch c (suc n) (set xs p v) ≡ stretch c n xs ++ v ∷ []
  stretch-set_end [] c n p v e h = absurd (omega arith)
  stretch-set_end (x ∷ xs) zero n p v e h =
      let e' : p ≡ n = omega (arith, e) in rw e' (take-set_end (x ∷ xs) n v (omega arith))
  stretch-set_end (x ∷ xs) (suc c) n zero v e h = absurd (omega arith)
  stretch-set_end (x ∷ xs) (suc c) n (suc p) v e h =
      stretch-set_end xs c n p v (omega arith) (omega arith)
