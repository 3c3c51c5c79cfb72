-- ===== src/Csr/SparseView.antt =====
-- gk_csr_ValidateSparseView and the valid views.
use gklib.Base.{
  ℕ, zero, suc, ◌+◌, ◌/◌, ◌≤◌, ◌<◌, ◌≡◌, refl, ap, inl, inr, Option, none, some, List, arith, ltb,
}
use gklib.Base.Outcome.{einval, eoverflow}
use gklib.Base.Size.{size_max}
use gklib.Csr.{
  ℤ, pos, negsuc, ◌>>=◌, refuse_if, nonzero, check_pointer, not_negative, check_entries, check_view,
  validate_sparse_view,
}
use gklib.Csr.Verdict.{
  Decides, DecidesOf, iff-Decides, then-Decides, refuse-Decides, each-Decides, read-passed,
}
use gklib.Csr.Valid.{at, Step, AllInRange, Paired, Reaches, IsSparse, HasRoom, rank}
use gklib.Csr.Entries.{pointer-Decides, EmptyIfNull, entries-Decides}

pub zero-Decides : (a : ℤ) → DecidesOf (refuse_if (nonzero a) einval) (a ≡ pos 0)
zero-Decides (pos zero) = inl (tt, (refl, refl))
zero-Decides (pos (suc a)) =
    inr (einval, (refl, λ u e. let h : suc (suc a) ≡ 1 = ap rank e in absurd (omega (arith, h))))
zero-Decides (negsuc a) =
    inr (einval, (refl, λ u e. let h : 0 ≡ 1 = ap rank e in absurd (omega (arith, h))))

pub empty_if : (other m : ℕ) (ind : Option (List ℤ)) → AllInRange other m ind → EmptyIfNull m ind
empty_if other m none h = h
empty_if other m (some ind) h = tt

module _ {V : Type 0} (dimension other : ℕ) (ptr : List ℤ) (ind : Option (List ℤ))
    (val : Option V) where
  -- What follows the check of the pointers.
  abbrev Counted : ℤ → ℕ → Type 0
  Counted a m =
      (a ≡ pos m)
      × ((m ≤ size_max / 4) × ((Paired ind val × EmptyIfNull m ind) × AllInRange other m ind))

  abbrev Summed : ℕ → Type 0
  Summed m =
      (at ptr 0 ≡ pos 0)
      × ((suc dimension ≤ size_max / 8)
          × (((k : ℕ) → 0 ≤ k → k < 0 + dimension → Step (at ptr k) (at ptr (suc k)))
              × Counted (at ptr dimension) m))

  last-Decides :
      (a : ℤ)
      → ((n : ℕ) → a ≡ pos n → Reaches n ind)
      → Decides (not_negative a >>= check_entries other ind val) (Counted a)
  last-Decides (negsuc a) reach =
      inr (einval, (refl, λ m c. let h : 0 ≡ suc m = ap rank c.0 in absurd (omega (arith, h))))
  last-Decides (pos n) reach =
      iff-Decides (check_entries other ind val n)
        (λ m p. rw (p.1.1.1) (refl, (p.0, (p.1.0, p.1.1.0))))
        (λ m c.
          let h : suc n ≡ suc m = ap rank c.0 in
          let same : m ≡ n = omega (arith, h) in
          (rw same at c.1.0, (rw same at c.1.1.0, (rw same at c.1.1.1, same))))
        (entries-Decides other n ind val (reach n refl))

  view-Decides : HasRoom dimension ptr ind → Decides (check_view dimension other ptr ind val) Summed
  unfolding check_view
  view-Decides (wide, reach) =
      rw (read-passed ptr 0 (pos 0) (omega (arith, wide)), read-passed ptr dimension (pos 0) wide)
        (then-Decides _ _ (zero-Decides (at ptr 0)) (λ _.
          then-Decides _ _
            (refuse-Decides (ltb (size_max / 8) (suc dimension)) eoverflow (λ h. ground (arith, h))
              (λ h p. ground (arith, h, p)))
            (λ _.
              then-Decides _ _
                (each-Decides (check_pointer ptr) dimension 0
                  (λ k l m. pointer-Decides ptr k (omega (arith, wide))))
                (λ _. last-Decides (at ptr dimension) reach))))

  sum_up : (m : ℕ) → Summed m → IsSparse dimension other ptr ind val m
  sum_up m (first, (few, (rising, (last, (small, ((paired, empty), inside)))))) = record {
    first = first;
    rising = λ k l. rising k (omega arith) (omega arith);
    last = last;
    inside = inside;
    paired = paired;
    few = few;
    small = small;
  }

  break_up : (m : ℕ) → IsSparse dimension other ptr ind val m → Summed m
  break_up m s = (
    s.first,
    (
      s.few,
      (
        λ k l m. s.rising k (omega arith),
        (s.last, (s.small, ((s.paired, empty_if other m ind s.inside), s.inside))),
      ),
    ),
  )

-- `gk_csr_ValidateSparseView` of pointers and indices that reach far enough reads no place outside
-- them; it returns the number of entries exactly if the view is valid with that number of entries,
-- and otherwise fails with an error.
pub validate_sparse_view-Decides :
    {V : Type 0} (dimension other : ℕ) (ptr : List ℤ) (ind : Option (List ℤ)) (val : Option V)
    → HasRoom dimension ptr ind
    → Decides
        (validate_sparse_view dimension other (some ptr) ind val)
        (IsSparse dimension other ptr ind val)
unfolding validate_sparse_view
validate_sparse_view-Decides dimension other ptr ind val room =
    iff-Decides (check_view dimension other ptr ind val) (sum_up dimension other ptr ind val)
      (break_up dimension other ptr ind val) (view-Decides dimension other ptr ind val room)
