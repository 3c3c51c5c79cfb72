-- ===== src/Sparse/Counts.antt =====
-- How many entries have a key, and how many have a smaller one.
use gklib.Base.{
  ℕ, suc, ◌+◌, ◌≤◌, ◌<◌, ◌≡◌, refl, List, [], ◌∷◌, ◌++◌, length, tally, ltb, ◌==◌, if◌then◌else◌,
  arith, false,
}

module _ {E : Type 0} (key : E → ℕ) where
  abbrev pub count : ℕ → List E → ℕ
  count k = tally (λ e. key e == k)

  abbrev pub below : ℕ → List E → ℕ
  below k = tally (λ e. ltb (key e) k)

  -- The entries of a key, in order.
  abbrev pub chosen : ℕ → List E → List E
  chosen k [] = []
  chosen k (e ∷ es) = if key e == k then e ∷ chosen k es else chosen k es

  -- Every key is smaller.
  abbrev pub AllBelow : ℕ → List E → Type 0
  AllBelow n [] = Unit {0}
  AllBelow n (e ∷ es) = (key e < n) × AllBelow n es

  pub below-zero : (es : List E) → below 0 es ≡ 0
  below-zero [] = refl
  below-zero (e ∷ es) = ground (arith, below-zero es)

  pub below-suc : (k : ℕ) (es : List E) → below (suc k) es ≡ below k es + count k es
  below-suc k [] = omega arith
  below-suc k (e ∷ es) = ground (arith, below-suc k es)

  pub below_mono : (a b : ℕ) (es : List E) → a ≤ b → below a es ≤ below b es
  below_mono a b [] h = omega arith
  below_mono a b (e ∷ es) h = ground (arith, below_mono a b es)

  -- The places of different keys are apart.
  pub below_apart : (a b : ℕ) (es : List E) → a < b → below a es + count a es ≤ below b es
  below_apart a b es h = omega (arith, below-suc a es, below_mono (suc a) b es (omega arith))

  pub below-all : (n : ℕ) (es : List E) → AllBelow n es → below n es ≡ length es
  below-all n [] h = refl
  below-all n (e ∷ es) (h, hs) = ground (arith, below-all n es hs)

  pub count_last :
      (k : ℕ) (es : List E) (e : E) → key e ≡ k → count k (es ++ e ∷ []) ≡ suc (count k es)
  count_last k [] e h = ground (arith, h)
  count_last k (x ∷ es) e h = ground (arith, count_last k es e h)

  pub count_other :
      (k : ℕ) (es : List E) (e : E) → (key e == k) ≡ false → count k (es ++ e ∷ []) ≡ count k es
  count_other k [] e h = ground (arith, h)
  count_other k (x ∷ es) e h = ground (arith, count_other k es e h)

  pub chosen_last :
      (k : ℕ) (es : List E) (e : E) → key e ≡ k → chosen k (es ++ e ∷ []) ≡ chosen k es ++ e ∷ []
  chosen_last k [] e h = ground (arith, h)
  chosen_last k (x ∷ es) e h = ground (arith, chosen_last k es e h)

  pub chosen_other :
      (k : ℕ) (es : List E) (e : E) → (key e == k) ≡ false → chosen k (es ++ e ∷ []) ≡ chosen k es
  chosen_other k [] e h = ground (arith, h)
  chosen_other k (x ∷ es) e h = ground (arith, chosen_other k es e h)
