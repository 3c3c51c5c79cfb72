-- ===== src/Csr/Extract/Submatrix.antt =====
-- gk_csr_ExtractSubmatrix of a valid matrix and rows that it has.
use gklib.Base.{
  ℕ, zero, suc, ◌+◌, ◌≤◌, ◌<◌, ◌≡◌, refl, ap, ◌∙◌, ◌⊎◌, inl, inr, true, false, some, List, [], ◌∷◌,
  length, take, drop, arith, Bool-cases, length-take, length-drop,
}
use gklib.Base.Arrays.{get_elem?-get_or}
use gklib.Base.Outcome.{
  Errno, einval, enomem, eoverflow, enospc, unset, sigmem, Outcome, ok, raised, or_enomem,
}
use gklib.Csr.{ℤ, pos}
use gklib.Csr.Valid.{at}
use gklib.Csr.Extract.{
  Alloc, Grants, malloc_no_signal, Rows, number, minus, allocation_failure, transform_error,
  subtract_first, rebase, conclude, copy_rows, extract_rows,
}
use gklib.Csr.Extract.Copies.{Refused-by, Refused, part, malloc_no_signal-Flagged}
use gklib.Csr.Extract.CopyRows.{CoversRows, part_rows, copy_rows-Copies}
use gklib.Csr.Extract.Rebase.{Rebased, subtract_first-Rebased, Span}

-- The matrix of `nrows` rows from `rstart` on: the entries between the pointers of the first row and
-- the end, the data of the rows, and the pointers less the first of them.
pub record Extracted {V : Type 0} (m : Rows V) (ptr : List ℤ) (rstart nrows : ℕ) (r : Rows V)
    : Type 0 where
  pub from : ℕ
  pub nnz : ℕ
  pub start : at ptr rstart ≡ pos from
  pub stop : at ptr (rstart + nrows) ≡ pos (from + nnz)
  pub pointers : List ℤ
  pub size : length pointers ≡ suc nrows
  pub rebased : (k : ℕ) → k ≤ nrows → at pointers k ≡ minus (at ptr (rstart + k)) (pos from)
  pub rows : r ≡ record (part_rows m rstart nrows from nnz) { rowptr = some pointers }

-- The call returns the matrix, or it reports a failed allocation, which the allocator has refused.
abbrev pub ExtractEnds :
    {V : Type 0} → Grants → Rows V → List ℤ → ℕ → ℕ → Outcome Alloc (Rows V) → Type 0
ExtractEnds {V} grants m ptr rstart nrows o =
    ((r : Rows V) × ((s : Alloc) × ((o ≡ ok r s) × Extracted m ptr rstart nrows r)))
    ⊎ ((e : Errno) × ((s : Alloc) × ((o ≡ raised sigmem e s) × Refused grants)))

pub allocation_failure-raised :
    {A : Type 0} (s : Alloc) → (e : Errno) × (allocation_failure {A = A} s ≡ raised sigmem e s)
allocation_failure-raised {A = A} s = by_errno s.errno s
  where
    by_errno :
        (e : Errno) (t : Alloc)
        → (x : Errno) × (transform_error {A = A} true (or_enomem e) t ≡ raised sigmem x t)
    by_errno unset t = (enomem, refl)
    by_errno einval t = (einval, refl)
    by_errno enomem t = (enomem, refl)
    by_errno eoverflow t = (eoverflow, refl)
    by_errno enospc t = (enospc, refl)

pub length_slice :
    {A : Type 0} (a : List A) (i n : ℕ) → i + n ≤ length a → length (take n (drop i a)) ≡ n
length_slice a i n h = ground (arith, h, length-take n (drop i a), length-drop i a)

pub at-drop : (a : List ℤ) (i k : ℕ) → at (drop i a) k ≡ at a (i + k)
at-drop a zero k = let e : 0 + k ≡ k = omega arith in rw e refl
at-drop [] (suc i) k = refl
at-drop (x ∷ a) (suc i) k = let e : suc i + k ≡ suc (i + k) = omega arith in rw e (at-drop a i k)

pub at-take : (a : List ℤ) (n k : ℕ) → k < n → at (take n a) k ≡ at a k
at-take a zero k h = absurd (omega arith)
at-take [] (suc n) k h = refl
at-take (x ∷ a) (suc n) zero h = refl
at-take (x ∷ a) (suc n) (suc k) h = at-take a n k (omega arith)

module _ {V : Type 0} (grants : Grants) (m : Rows V) (ptr : List ℤ) (rstart nrows : ℕ) where
  rebase-eq :
      (r : Rows V) (first : ℤ) (p p' : List ℤ)
      → r.rowptr ≡ some p
      → subtract_first first (suc nrows) p ≡ some p'
      → rebase first nrows r ≡ some (record r { rowptr = some p' })
  unfolding rebase
  rebase-eq r first p p' e e' = rw (rebase, e, e') refl

  conclude-lost :
      (first : ℤ) (r : Alloc × Rows V)
      → r.0.gave_up ≡ true
      → conclude first nrows (some r) ≡ allocation_failure r.0
  unfolding conclude
  conclude-lost first r e = simp (e)

  conclude-ok :
      (first : ℤ) (r : Alloc × Rows V) (q : Rows V)
      → r.0.gave_up ≡ false
      → rebase first nrows r.1 ≡ some q
      → conclude first nrows (some r) ≡ ok q r.0
  unfolding conclude
  conclude-ok first r q e e' = simp (e, e')

  module _ (n : ℕ) (sp : Span n (at ptr rstart) (at ptr (rstart + nrows)))
      (wide : rstart + suc nrows ≤ length ptr) (here : m.rowptr ≡ some ptr)
      (covers : CoversRows m rstart nrows sp.from sp.nnz) where
    cut : List ℤ
    cut = take (suc nrows) (drop rstart ptr)

    kept_pointers : (part_rows m rstart nrows sp.from sp.nnz).rowptr ≡ some cut
    unfolding cut
    kept_pointers = ap (λ o. part o rstart (suc nrows)) here

    cut_at : (k : ℕ) → k ≤ nrows → at cut k ≡ at ptr (rstart + k)
    unfolding cut
    cut_at k h = at-take (drop rstart ptr) (suc nrows) k (omega (arith, h)) ∙ at-drop ptr rstart k

    length-cut : length cut ≡ suc nrows
    unfolding cut
    length-cut = length_slice ptr rstart (suc nrows) wide

    based : Rebased (at ptr rstart) (suc nrows) cut
    based = subtract_first-Rebased (at ptr rstart) (suc nrows) cut (omega (arith, length-cut))

    result : Rows V
    result = record (part_rows m rstart nrows sp.from sp.nnz) { rowptr = some based.after }

    result-Extracted : Extracted m ptr rstart nrows result
    unfolding result
    result-Extracted = record {
      from = sp.from;
      nnz = sp.nnz;
      start = sp.start;
      stop = sp.stop;
      pointers = based.after;
      size = based.size ∙ length-cut;
      rebased = λ k h.
          based.low k (omega (arith, h))
          ∙ ap (λ x. minus x (at ptr rstart)) (cut_at k h)
          ∙ ap (minus (at ptr (rstart + k))) sp.start;
      rows = refl;
    }

    extract_rows-made :
        (s : Alloc)
        → (malloc_no_signal grants 184 s).1 ≡ true
        → extract_rows grants m ptr rstart nrows s
          ≡ conclude
              (at ptr rstart)
              nrows
              (copy_rows grants m rstart nrows sp.from sp.nnz (malloc_no_signal grants 184 s).0)
    unfolding extract_rows
    extract_rows-made s e =
        let h : number (at ptr rstart) ≡ some sp.from = ap number sp.start in
        rw
          (
            extract_rows,
            e,
            get_elem?-get_or ptr rstart (pos 0) (omega (arith, wide)),
            get_elem?-get_or ptr (rstart + nrows) (pos 0) (omega (arith, wide)),
            h,
            sp.difference,
          )
          refl

    extract_rows-refused :
        (s : Alloc)
        → (malloc_no_signal grants 184 s).1 ≡ false
        → extract_rows grants m ptr rstart nrows s
          ≡ allocation_failure (malloc_no_signal grants 184 s).0
    unfolding extract_rows
    extract_rows-refused s e = rw (extract_rows, e) refl

    pub extract_rows-Ends :
        (s : Alloc)
        → s.gave_up ≡ false
        → ExtractEnds grants m ptr rstart nrows (extract_rows grants m ptr rstart nrows s)
    unfolding result
    extract_rows-Ends s clear =
        let flag = malloc_no_signal-Flagged grants 184 s in
        let s' = (malloc_no_signal grants 184 s).0 in
        elim (Bool-cases (malloc_no_signal grants 184 s).1) [
          | inr f ↦
              let raise = allocation_failure-raised {A = Rows V} s' in
              inr (
                raise.0,
                (s', (extract_rows-refused s f ∙ raise.1, Refused-by grants s clear (flag.1 f).1)),
              )
          | inl t ↦
              let c = copy_rows-Copies m rstart nrows sp.from sp.nnz grants covers s' in
              let r = c.0 in
              let clear' : s'.gave_up ≡ false = flag.0 t ∙ clear in
              let made = extract_rows-made s t ∙ ap (conclude (at ptr rstart) nrows) c.1.0 in
              elim (Bool-cases r.0.gave_up) [
                | inl g ↦
                    let raise = allocation_failure-raised {A = Rows V} r.0 in
                    inr (
                      raise.0,
                      (
                        r.0,
                        (
                          made ∙ conclude-lost (at ptr rstart) r g ∙ raise.1,
                          Refused-by grants s' clear' (c.1.1.1 g),
                        ),
                      ),
                    )
                | inr g ↦
                    let same = (c.1.1.0 g).1 in
                    inl (
                      result,
                      (
                        r.0,
                        (
                          made
                              ∙ conclude-ok (at ptr rstart) r result g (
                                  ap (rebase (at ptr rstart) nrows) same
                                  ∙ rebase-eq (part_rows m rstart nrows sp.from sp.nnz)
                                      (at ptr rstart) cut based.after kept_pointers based.run),
                          result-Extracted,
                        ),
                      ),
                    )
              ]
        ]
