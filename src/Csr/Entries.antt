-- ===== src/Csr/Entries.antt =====
-- The steps of gk_csr_ValidateSparseView, one for each part of a valid view.
use gklib.Base.{
  ℕ, suc, ◌/◌, ◌≤◌, ◌<◌, ◌≡◌, refl, inl, inr, true, false, not, ◌&&◌, ◌||◌, Option, none, some,
  List, length, arith, ltb, if◌then◌else◌,
}
use gklib.Base.Outcome.{einval, eoverflow}
use gklib.Base.Size.{size_max}
use gklib.Csr.{
  ℤ, pos, negsuc, failed, refuse_if, present, check_each, less, negative, check_pointer, outside,
  check_index, check_entries,
}
use gklib.Csr.Verdict.{
  Decides, DecidesOf, iff-Decides, then-Decides, refuse-Decides, each-Decides, read-passed,
  check_each-zero,
}
use gklib.Csr.Valid.{at, Step, InRange, AllInRange, Paired, Reaches}

step-Decides :
    (a b : ℤ)
    → DecidesOf (if negative a then failed einval else refuse_if (less b a) einval) (Step a b)
step-Decides (negsuc a) b = inr (einval, (refl, λ u s. s))
step-Decides (pos a) (negsuc b) =
    let e : ltb a 0 ≡ false = ground arith in rw e (inr (einval, (refl, λ u s. s)))
step-Decides (pos a) (pos b) =
    let e : ltb a 0 ≡ false = ground arith in
    rw e (refuse-Decides (ltb b a) einval (λ h. ground (arith, h)) (λ h s. ground (arith, h, s)))

pub pointer-Decides :
    (ptr : List ℤ) (i : ℕ)
    → suc i < length ptr
    → DecidesOf (check_pointer ptr i) (Step (at ptr i) (at ptr (suc i)))
unfolding check_pointer
pointer-Decides ptr i h =
    rw (read-passed ptr i (pos 0) (omega arith), read-passed ptr (suc i) (pos 0) h)
      (step-Decides (at ptr i) (at ptr (suc i)))

range-Decides : (n : ℕ) (a : ℤ) → DecidesOf (refuse_if (outside n a) einval) (InRange n a)
range-Decides n (negsuc a) = inr (einval, (refl, λ u s. s))
range-Decides n (pos a) =
    let e : ltb a 0 ≡ false = ground arith in
    rw e
      (refuse-Decides (not (ltb a n)) einval (λ h. ground (arith, h)) (λ h s. ground (arith, h, s)))

index-Decides :
    (other : ℕ) (ind : List ℤ) (i : ℕ)
    → i < length ind
    → DecidesOf (check_index other (some ind) i) (InRange other (at ind i))
unfolding check_index
index-Decides other ind i h = rw (read-passed ind i (pos 0) h) (range-Decides other (at ind i))

-- Without indices there are no entries.
abbrev pub EmptyIfNull : ℕ → Option (List ℤ) → Type 0
EmptyIfNull n none = n ≡ 0
EmptyIfNull n (some ind) = Unit {0}

module _ {V : Type 0} where
  presence-Decides :
      (n : ℕ) (ind : Option (List ℤ)) (val : Option V)
      → DecidesOf
          (refuse_if ((ltb 0 n || present val) && not (present ind)) einval)
          (Paired ind val × EmptyIfNull n ind)
  presence-Decides n (some ind) val =
      refuse-Decides ((ltb 0 n || present val) && false) einval (λ h. (tt, tt))
        (λ h p. ground (arith, h))
  presence-Decides n none (some v) =
      refuse-Decides ((ltb 0 n || true) && true) einval (λ h. ground (arith, h)) (λ h p. p.0)
  presence-Decides n none none =
      refuse-Decides ((ltb 0 n || false) && true) einval (λ h. (tt, ground (arith, h)))
        (λ h p. ground (arith, h, p.1))

  pub small-Decides :
      (n : ℕ) (val : Option V)
      → DecidesOf
          (refuse_if (ltb (size_max / 4) n || (present val && ltb (size_max / 4) n)) eoverflow)
          (n ≤ size_max / 4)
  small-Decides n none =
      refuse-Decides (ltb (size_max / 4) n || (false && ltb (size_max / 4) n)) eoverflow
        (λ h. ground (arith, h)) (λ h p. ground (arith, h, p))
  small-Decides n (some v) =
      refuse-Decides (ltb (size_max / 4) n || (true && ltb (size_max / 4) n)) eoverflow
        (λ h. ground (arith, h)) (λ h p. ground (arith, h, p))

pub indices-Decides :
    (other n : ℕ) (ind : Option (List ℤ))
    → Reaches n ind
    → EmptyIfNull n ind
    → DecidesOf (check_each n 0 (check_index other ind)) (AllInRange other n ind)
indices-Decides other n none reach empty =
    rw empty (inl (tt, (check_each-zero 0 (check_index other none), refl)))
indices-Decides other n (some ind) reach empty =
    iff-Decides (check_each n 0 (check_index other (some ind)))
      (λ _ p k l. p k (omega arith) (omega arith)) (λ _ p k l m. p k (omega arith))
      (each-Decides (check_index other (some ind)) n 0
        (λ k l m. index-Decides other ind k (omega (arith, reach))))

module _ {V : Type 0} (other n : ℕ) (ind : Option (List ℤ)) (val : Option V) where
  -- What the last checks find.
  abbrev Entered : ℕ → Type 0
  Entered m =
      (n ≤ size_max / 4)
      × ((Paired ind val × EmptyIfNull n ind) × (AllInRange other n ind × (m ≡ n)))

  pub entries-Decides : Reaches n ind → Decides (check_entries other ind val n) Entered
  unfolding check_entries
  entries-Decides reach = then-Decides _ _ (small-Decides n val) (λ _.
      then-Decides _ _ (presence-Decides n ind val) (λ p.
        then-Decides _ _ (indices-Decides other n ind reach p.1) (λ _. inl (n, (refl, refl)))))
