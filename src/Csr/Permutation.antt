-- ===== src/Csr/Permutation.antt =====
-- gk_csr_ValidatePermutation and the permutations.
use mathlib.Core.Path.{subst}
use gklib.Base.{
  ℕ, zero, suc, ◌+◌, ◌≤◌, ◌<◌, ◌≡◌, refl, sym, ap, ◌∙◌, ◌⊎◌, inl, inr, true, List, length, get_or,
  set, replicate, arith, Bool-cases, ltb, leb, ◌==◌, ==_iff, length-set, length-replicate,
  get_or-replicate,
}
use gklib.Base.Arrays.{get_or-set}
use gklib.Base.Outcome.{Errno, einval}
use gklib.Csr.{
  ℤ, pos, negsuc, Checked, passed, failed, ◌>>=◌, check_value, check_target, check_targets,
  validate_permutation,
}
use gklib.Csr.Verdict.{Decides, iff-Decides, from_first, read-passed}
use gklib.Csr.Valid.{at, InRange, rank}

-- Target `k` is in range and differs from those before it.
abbrev pub NewTarget : ℕ → List ℤ → ℕ → Type 0
NewTarget nrows permutation k =
    InRange nrows (at permutation k) × ((j : ℕ) → j < k → at permutation j ≡ at permutation k → ⊥)

module _ (nrows : ℕ) (permutation : List ℤ) where
  -- The marks are on the first `i` targets.
  record Marks (i : ℕ) (seen : List ℕ) : Type 0 where
    width : length seen ≡ nrows
    unseen : (v j : ℕ) → v < nrows → get_or seen v 0 ≡ 0 → j < i → at permutation j ≡ pos v → ⊥
    met :
        (v : ℕ) → v < nrows → 0 < get_or seen v 0 → (j : ℕ) × ((j < i) × (at permutation j ≡ pos v))

  -- The end of a step.
  abbrev Stepped : ℕ → Checked (List ℕ) → Type 0
  Stepped i c =
      ((seen : List ℕ) × ((c ≡ passed seen) × (NewTarget nrows permutation i × Marks (suc i) seen)))
      ⊎ ((e : Errno) × ((c ≡ failed e) × (NewTarget nrows permutation i → ⊥)))

  pos-injective : (a b : ℕ) → pos a ≡ pos b → a ≡ b
  pos-injective a b e = let h : suc a ≡ suc b = ap rank e in omega (arith, h)

  -- A target that is not marked yet.
  marked :
      (i v : ℕ) (seen : List ℕ)
      → Marks i seen
      → at permutation i ≡ pos v
      → v < nrows
      → Marks (suc i) (set seen v 1)
  marked i v seen m e l = record {
    width = length-set seen v 1 ∙ m.width;
    unseen = λ u j r z below same. elim (Bool-cases (v == u)) [
      | inl t ↦ ground (arith, z, t, get_or-set seen v u 1 0, m.width)
      | inr t ↦ elim (Bool-cases (j == i)) [
        | inl t' ↦
            let here : j ≡ i = (==_iff j i).0 t' in
            let w : v ≡ u = pos-injective v u (sym e ∙ ap (at permutation) (sym here) ∙ same) in
            ground (arith, t, w)
        | inr t' ↦
            m.unseen u j r (ground (arith, z, t, get_or-set seen v u 1 0, m.width))
              (ground (arith, t', below)) same
      ]
    ];
    met = λ u r s. elim (Bool-cases (v == u)) [
      | inl t ↦ (i, (omega arith, e ∙ ap pos ((==_iff v u).0 t)))
      | inr t ↦
          let old = m.met u r (ground (arith, s, t, get_or-set seen v u 1 0, m.width)) in
          (old.0, (omega (arith, old.1.0), old.1.1))
    ];
  }

  value-Stepped :
      (i : ℕ) (a : ℤ) (seen : List ℕ)
      → Marks i seen
      → at permutation i ≡ a
      → Stepped i (check_value nrows a seen)
  unfolding check_value
  value-Stepped i (negsuc v) seen m e = inr (einval, (refl, λ t. subst (InRange nrows) e t.0))
  value-Stepped i (pos v) seen m e = elim (Bool-cases (leb nrows v)) [
    | inl large ↦ inr (
      einval,
      (
        rw large refl,
        λ t. let l : v < nrows = subst (InRange nrows) e t.0 in ground (arith, large, l),
      ),
    )
    | inr low ↦
        let l : v < nrows = ground (arith, low) in
        let r = read-passed seen v 0 (omega (arith, l, m.width)) in
        elim (Bool-cases (ltb 0 (get_or seen v 0))) [
          | inl twice ↦
              let old = m.met v l (ground (arith, twice)) in
              inr (einval, (rw (low, r, twice) refl, λ t. t.1 old.0 old.1.0 (old.1.1 ∙ sym e)))
          | inr once ↦
              let room : ltb v (length seen) ≡ true = ground (arith, l, m.width) in
              inl (
                set seen v 1,
                (
                  rw (low, r, once, room) refl,
                  (
                    (
                      subst (InRange nrows) (sym e) l,
                      λ j below same. m.unseen v j l (ground (arith, once)) below (same ∙ e),
                    ),
                    marked i v seen m e l,
                  ),
                ),
              )
        ]
  ]

  target-Stepped :
      (i : ℕ) (seen : List ℕ)
      → i < length permutation
      → Marks i seen
      → Stepped i (check_target nrows permutation i seen)
  unfolding check_target
  target-Stepped i seen h m =
      rw (read-passed permutation i (pos 0) h) (value-Stepped i (at permutation i) seen m refl)

  -- The targets from `i` on are new.
  abbrev New : ℕ → ℕ → Type 0
  New n i = (k : ℕ) → i ≤ k → k < i + n → NewTarget nrows permutation k

  targets-zero : (i : ℕ) (seen : List ℕ) → check_targets nrows permutation zero i seen ≡ passed seen
  unfolding check_targets
  targets-zero i seen = refl

  targets-suc :
      (n i : ℕ) (seen : List ℕ)
      → check_targets nrows permutation (suc n) i seen ≡ (
          check_target nrows permutation i seen >>= λ seen'.
          check_targets nrows permutation n (suc i) seen')
  unfolding check_targets
  targets-suc n i seen = refl

  targets-Decides :
      (n i : ℕ) (seen : List ℕ)
      → i + n ≤ length permutation
      → Marks i seen
      → Decides (check_targets nrows permutation n i seen) (λ _. New n i)
  targets-Decides zero i seen h m = inl (seen, (targets-zero i seen, λ k l r. absurd (omega arith)))
  targets-Decides (suc n) i seen h m = elim (target-Stepped i seen (omega arith) m) [
    | inl (seen', (e, (new, m'))) ↦
        rw (targets-suc n i seen, e)
          (iff-Decides (check_targets nrows permutation n (suc i) seen')
            (λ _ rest. from_first {P = NewTarget nrows permutation} n i new rest)
            (λ _ all k l r. all k (omega arith) (omega arith))
            (targets-Decides n (suc i) seen' (omega arith) m'))
    | inr (err, (e, old)) ↦
        rw (targets-suc n i seen, e)
          (inr (err, (refl, λ _ all. old (all i (omega arith) (omega arith)))))
  ]

  start-Marks : Marks 0 (replicate nrows 0)
  start-Marks = record {
    width = length-replicate nrows 0;
    unseen = λ v j l z below. absurd (omega (arith, below));
    met = λ v l s. absurd (omega (arith, s, get_or-replicate {A = ℕ} nrows v 0));
  }

-- A permutation of the numbers below `nrows`: the targets are in range and different.
pub record IsPermutation (permutation : List ℤ) (nrows : ℕ) : Type 0 where
  pub targets : (k : ℕ) → k < nrows → InRange nrows (at permutation k)
  pub different : (j k : ℕ) → j < k → k < nrows → at permutation j ≡ at permutation k → ⊥

-- `gk_csr_ValidatePermutation` of an array of `nrows` elements or more reads and writes no place
-- outside its arrays; it passes exactly if the first `nrows` elements are a permutation of the numbers
-- below `nrows`, and otherwise fails with an error.
pub validate_permutation-Decides :
    (permutation : List ℤ) (nrows : ℕ)
    → nrows ≤ length permutation
    → Decides (validate_permutation permutation nrows) (λ _. IsPermutation permutation nrows)
unfolding validate_permutation
validate_permutation-Decides permutation nrows h =
    iff-Decides (check_targets nrows permutation nrows 0 (replicate nrows 0))
      (λ _ new. record {
        targets = λ k l. (new k (omega arith) (omega arith)).0;
        different = λ j k below l. (new k (omega arith) (omega arith)).1 j below;
      })
      (λ _ p k l r. (p.targets k (omega arith), λ j below. p.different j k below (omega arith)))
      (targets-Decides nrows permutation nrows 0 (replicate nrows 0) (omega arith)
        (start-Marks nrows permutation))
