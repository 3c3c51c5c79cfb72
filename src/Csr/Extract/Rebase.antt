-- ===== src/Csr/Extract/Rebase.antt =====
-- The pointers of gk_csr_ExtractSubmatrix, and the loop that takes the first from all.
use gklib.Base.{
  ℕ, zero, suc, ◌+◌, ◌-◌, ◌≤◌, ◌<◌, ◌≡◌, refl, ap, ◌∙◌, inl, inr, true, false, some, Option, List,
  length, set, leb, ltb, ◌==◌, if◌then◌else◌, arith, length-set, Bool-cases, ==_iff,
}
use gklib.Base.Arrays.{write-eq-some, get_elem?-get_or, get_or-set}
use gklib.Csr.{ℤ, pos, negsuc}
use gklib.Csr.Valid.{at, Step, IsSparse}
use gklib.Csr.Extract.{minus, number, subtract_first}

-- The array with the first taken from its first `n` elements.
pub record Rebased (first : ℤ) (n : ℕ) (ptr : List ℤ) : Type 0 where
  pub after : List ℤ
  pub run : subtract_first first n ptr ≡ some after
  pub size : length after ≡ length ptr
  pub low : (k : ℕ) → k < n → at after k ≡ minus (at ptr k) first
  pub high : (k : ℕ) → n ≤ k → at after k ≡ at ptr k

subtract_first-zero : (first : ℤ) (ptr : List ℤ) → subtract_first first zero ptr ≡ some ptr
unfolding subtract_first
subtract_first-zero first ptr = refl

subtract_first-suc :
    (first : ℤ) (n : ℕ) (ptr : List ℤ)
    → n < length ptr
    → subtract_first first (suc n) ptr ≡ subtract_first first n (set ptr n (minus (at ptr n) first))
unfolding subtract_first
subtract_first-suc first n ptr h =
    rw
      (
        subtract_first,
        get_elem?-get_or ptr n (pos 0) h,
        write-eq-some ptr n (minus (at ptr n) first) h,
      )
      refl

pub subtract_first-Rebased :
    (first : ℤ) (n : ℕ) (ptr : List ℤ) → n ≤ length ptr → Rebased first n ptr
subtract_first-Rebased first zero ptr h = record {
  after = ptr;
  run = subtract_first-zero first ptr;
  size = refl;
  low = λ k l. absurd (omega arith);
  high = λ k l. refl;
}
subtract_first-Rebased first (suc n) ptr h =
    let p = minus (at ptr n) first in
    let here : (k : ℕ) → at (set ptr n p) k ≡ (if n == k then p else at ptr k) =
      λ k. get_or-set ptr n k p (pos 0) (omega (arith, h)) in
    let r = subtract_first-Rebased first n (set ptr n p) (omega (arith, h, length-set ptr n p)) in
    record {
      after = r.after;
      run = subtract_first-suc first n ptr (omega (arith, h)) ∙ r.run;
      size = r.size ∙ length-set ptr n p;
      low = λ k l. elim (Bool-cases (n == k)) [
        | inl t ↦
            let e : n ≡ k = (==_iff n k).0 t in
            r.high k (omega (arith, e)) ∙ here k ∙ rw t (ap (λ i. minus (at ptr i) first) e)
        | inr t ↦ r.low k (ground (arith, l, t)) ∙ ap (λ x. minus x first) (here k ∙ rw t refl)
      ];
      high = λ k l.
          let t : (n == k) ≡ false = ground (arith, l) in
          r.high k (omega (arith, l)) ∙ here k ∙ rw t refl;
    }

step_refl : (a b : ℤ) → Step a b → Step a a
step_refl (pos a) b s = omega arith
step_refl (negsuc a) b s = s

step_trans : (a b c : ℤ) → Step a b → Step b c → Step a c
step_trans (pos a) (pos b) (pos c) s t = omega (arith, s, t)
step_trans (pos a) (pos b) (negsuc c) s t = t
step_trans (pos a) (negsuc b) c s t = absurd s
step_trans (negsuc a) b c s t = s

-- Two pointers of a view of `n` entries: the second less the first is a number.
pub record Span (n : ℕ) (a b : ℤ) : Type 0 where
  pub from : ℕ
  pub nnz : ℕ
  pub start : a ≡ pos from
  pub stop : b ≡ pos (from + nnz)
  pub difference : number (minus b a) ≡ some nnz
  pub inside : from + nnz ≤ n

span : (n : ℕ) (a b : ℤ) → Step a b → Step b (pos n) → Span n a b
span n (pos a) (pos b) s t = record {
  from = a;
  nnz = b - a;
  start = refl;
  stop = let e : b ≡ a + (b - a) = omega (arith, s) in ap pos e;
  difference = let e : leb a b ≡ true = ground (arith, s) in rw e refl;
  inside = omega (arith, s, t);
}
span n (pos a) (negsuc b) s t = absurd s
span n (negsuc a) b s t = absurd s

module _ {V : Type 0} {dimension other : ℕ} {ptr : List ℤ} {ind : Option (List ℤ)} {val : Option V}
    {n : ℕ} (s : IsSparse dimension other ptr ind val n) where
  pub rise : (k d : ℕ) → k + d ≤ dimension → Step (at ptr k) (at ptr (k + d))
  rise k zero h =
      let e : k + 0 ≡ k = omega arith in
      rw e (elim (Bool-cases (ltb k dimension)) [
        | inl t ↦ step_refl (at ptr k) (at ptr (suc k)) (s.rising k (ground (arith, t)))
        | inr t ↦ let e' : k ≡ dimension = ground (arith, t, h) in rw (e', s.last) (omega arith)
      ])
  rise k (suc d) h =
      let e : k + suc d ≡ suc (k + d) = omega arith in
      rw e (
        step_trans (at ptr k) (at ptr (k + d)) (at ptr (suc (k + d))) (rise k d (omega (arith, h)))
          (s.rising (k + d) (omega (arith, h))))

  pub rows-Span : (a b : ℕ) → a + b ≤ dimension → Span n (at ptr a) (at ptr (a + b))
  rows-Span a b h =
      let e : a + b + (dimension - (a + b)) ≡ dimension = omega (arith, h) in
      let last : Step (at ptr (a + b)) (pos n) =
        rw (e, s.last) at (rise (a + b) (dimension - (a + b)) (omega (arith, h))) in
      span n (at ptr a) (at ptr (a + b)) (rise a b h) last
