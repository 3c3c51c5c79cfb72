-- ===== src/Csr/Dup/Equal.antt =====
-- gk_csr_Dup and the copy that it makes.
use mathlib.Core.Path.{subst}
use gklib.Base.{
  ℕ, suc, ◌+◌, ◌/◌, ◌≤◌, ◌≡◌, refl, sym, ap, ◌∙◌, ◌⊎◌, inl, inr, true, false, Option, none, some,
  List, [], ◌∷◌, length, arith, take, Bool-cases,
}
use gklib.Base.Size.{size_max}
use gklib.Base.Outcome.{Errno, sigmem, Outcome, ok, raised}
use gklib.Csr.{pos, passed, validate_structure}
use gklib.Csr.Extract.{Alloc, Grants, malloc_no_signal, Rows, copy_rows, number, allocation_failure}
use gklib.Csr.Extract.Copies.{
  Refused, Copies, give-Copies, bind-Copies, part, Covers, malloc_no_signal-Flagged, Refused-by,
}
use gklib.Csr.Extract.CopyRows.{CoversRows, part_rows, copy_rows-Copies}
use gklib.Csr.Extract.Submatrix.{allocation_failure-raised}
use gklib.Csr.Dup.{Sides, sides_shape, copy_sides, unless_failed, dup_valid, dup}

-- An array that may be null has just `n` elements.
abbrev pub Exactly : {A : Type 0} → ℕ → Option (List A) → Type 0
Exactly n none = Unit {0}
Exactly n (some a) = length a ≡ n

take_all : {A : Type 0} (a : List A) → take (length a) a ≡ a
take_all [] = refl
take_all (x ∷ a) = ap (λ l. x ∷ l) (take_all a)

part_all : {A : Type 0} (o : Option (List A)) (n : ℕ) → Exactly n o → part o 0 n ≡ o
part_all none n h = refl
part_all (some a) n h = ap some (ap (λ k. take k a) (sym h) ∙ take_all a)

Exactly-Covers : {A : Type 0} (o : Option (List A)) (n : ℕ) → Exactly n o → Covers (0 + n) o
Exactly-Covers none n h = tt
Exactly-Covers (some a) n h = omega (arith, h)

-- The arrays of a side have an element for each of its `rows` rows, or for each of its `n` entries.
pub record IsSized {V : Type 0} (m : Rows V) (rows n : ℕ) : Type 0 where
  pub nrows : m.nrows ≡ pos rows
  pub rowptr : Exactly (suc rows) m.rowptr
  pub rowind : Exactly n m.rowind
  pub rowval : Exactly n m.rowval
  pub rowids : Exactly rows m.rowids
  pub rlabels : Exactly rows m.rlabels
  pub rmap : Exactly rows m.rmap
  pub rnorms : Exactly rows m.rnorms
  pub rsums : Exactly rows m.rsums
  pub rsizes : Exactly rows m.rsizes
  pub rvols : Exactly rows m.rvols
  pub rwgts : Exactly rows m.rwgts
  pub few : suc rows ≤ size_max / 8
  pub small : n ≤ size_max / 4

module _ {V : Type 0} (m : Rows V) (rows n : ℕ) (z : IsSized m rows n) where
  sized_covers : CoversRows m 0 rows 0 n
  sized_covers = record {
    rowptr = Exactly-Covers m.rowptr (suc rows) z.rowptr;
    rowind = Exactly-Covers m.rowind n z.rowind;
    rowval = Exactly-Covers m.rowval n z.rowval;
    rowids = Exactly-Covers m.rowids rows z.rowids;
    rlabels = Exactly-Covers m.rlabels rows z.rlabels;
    rmap = Exactly-Covers m.rmap rows z.rmap;
    rnorms = Exactly-Covers m.rnorms rows z.rnorms;
    rsums = Exactly-Covers m.rsums rows z.rsums;
    rsizes = Exactly-Covers m.rsizes rows z.rsizes;
    rvols = Exactly-Covers m.rvols rows z.rvols;
    rwgts = Exactly-Covers m.rwgts rows z.rwgts;
    few = z.few;
    small = z.small;
  }

  sized_part : part_rows m 0 rows 0 n ≡ m
  sized_part = λ i. record {
    nrows = sym z.nrows i;
    ncols = m.ncols;
    rowptr = part_all m.rowptr (suc rows) z.rowptr i;
    rowind = part_all m.rowind n z.rowind i;
    rowval = part_all m.rowval n z.rowval i;
    rowids = part_all m.rowids rows z.rowids i;
    rlabels = part_all m.rlabels rows z.rlabels i;
    rmap = part_all m.rmap rows z.rmap i;
    rnorms = part_all m.rnorms rows z.rnorms i;
    rsums = part_all m.rsums rows z.rsums i;
    rsizes = part_all m.rsizes rows z.rsizes i;
    rvols = part_all m.rvols rows z.rvols i;
    rwgts = part_all m.rwgts rows z.rwgts i;
  }

  copy_rows_same : (grants : Grants) → Copies grants (copy_rows grants m 0 rows 0 n) m
  copy_rows_same grants =
      subst (Copies grants (copy_rows grants m 0 rows 0 n)) sized_part
        (copy_rows-Copies m 0 rows 0 n grants sized_covers)

-- The call returns the matrix itself, or it reports a failed allocation, which the allocator has
-- refused.
abbrev pub Duplicates : {V : Type 0} → Grants → Sides V → Outcome Alloc (Sides V) → Type 0
Duplicates grants m o =
    ((s : Alloc) × (o ≡ ok m s))
    ⊎ ((e : Errno) × ((s : Alloc) × ((o ≡ raised sigmem e s) × Refused grants)))

module _ {V : Type 0} (grants : Grants) (m : Sides V) (rows columns rownnz colnnz : ℕ)
    (z : IsSized m.rows rows rownnz) (z' : IsSized m.columns columns colnnz) where
  copy_sides-Copies : Copies grants (copy_sides grants m rows columns rownnz colnnz) m
  unfolding copy_sides
  copy_sides-Copies =
      bind-Copies {f = λ r. record { rows = r; columns = m.columns }} grants _ _
        (copy_rows_same m.rows rows rownnz z grants)
        (λ r.
          bind-Copies {f = λ c. record { rows = r; columns = c }} grants _ _
            (copy_rows_same m.columns columns colnnz z' grants)
            (λ c. give-Copies grants (record { rows = r; columns = c })))

  dup_valid-made :
      (s : Alloc)
      → m.rows.ncols ≡ pos columns
      → (malloc_no_signal grants 184 s).1 ≡ true
      → dup_valid grants m rownnz colnnz s
        ≡ unless_failed
            (copy_sides grants m rows columns rownnz colnnz (malloc_no_signal grants 184 s).0)
  unfolding dup_valid
  dup_valid-made s e t =
      let a : number m.rows.nrows ≡ some rows = ap number z.nrows in
      let b : number m.rows.ncols ≡ some columns = ap number e in rw (dup_valid, a, b, t) refl

  dup_valid-refused :
      (s : Alloc)
      → m.rows.ncols ≡ pos columns
      → (malloc_no_signal grants 184 s).1 ≡ false
      → dup_valid grants m rownnz colnnz s ≡ allocation_failure (malloc_no_signal grants 184 s).0
  unfolding dup_valid
  dup_valid-refused s e t =
      let a : number m.rows.nrows ≡ some rows = ap number z.nrows in
      let b : number m.rows.ncols ≡ some columns = ap number e in rw (dup_valid, a, b, t) refl

  failed_copies :
      (r : Alloc × Sides V) → r.0.gave_up ≡ true → unless_failed (some r) ≡ allocation_failure r.0
  unfolding unless_failed
  failed_copies r e = simp (e)

  granted_copies : (r : Alloc × Sides V) → r.0.gave_up ≡ false → unless_failed (some r) ≡ ok r.1 r.0
  unfolding unless_failed
  granted_copies r e = simp (e)

  -- An allocation failure after a refusal.
  reported :
      (o : Outcome Alloc (Sides V)) (s s' : Alloc)
      → o ≡ allocation_failure s'
      → s.gave_up ≡ false
      → (s.gave_up ≡ true) ⊎ Refused grants
      → Duplicates grants m o
  reported o s s' e clear refused =
      let raise = allocation_failure-raised {A = Sides V} s' in
      inr (raise.0, (s', (e ∙ raise.1, Refused-by grants s clear refused)))

  dup_valid-Duplicates :
      (s : Alloc)
      → m.rows.ncols ≡ pos columns
      → s.gave_up ≡ false
      → Duplicates grants m (dup_valid grants m rownnz colnnz s)
  dup_valid-Duplicates s e clear =
      let flag = malloc_no_signal-Flagged grants 184 s in
      let s' = (malloc_no_signal grants 184 s).0 in
      elim (Bool-cases (malloc_no_signal grants 184 s).1) [
        | inr t ↦ reported _ s s' (dup_valid-refused s e t) clear (flag.1 t).1
        | inl t ↦
            let c = copy_sides-Copies s' in
            let r = c.0 in
            let clear' : s'.gave_up ≡ false = flag.0 t ∙ clear in
            let made = dup_valid-made s e t ∙ ap unless_failed c.1.0 in
            elim (Bool-cases r.0.gave_up) [
              | inl g ↦ reported _ s' r.0 (made ∙ failed_copies r g) clear' (c.1.1.1 g)
              | inr g ↦ inl (r.0, made ∙ granted_copies r g ∙ ap (λ x. ok x r.0) (c.1.1.0 g).1)
            ]
      ]

dup-eq :
    {V : Type 0} (grants : Grants) (m : Sides V) (n : ℕ × ℕ) (s : Alloc)
    → validate_structure (some (sides_shape m)) ≡ passed n
    → dup grants m s ≡ dup_valid grants m n.0 n.1 s
unfolding dup
dup-eq grants m n s e = rw (dup, e) refl

-- `gk_csr_Dup` of a matrix that `gk_csr_ValidateStructure` accepts, whose arrays have an element for
-- each row or column, or for each entry, reads no place outside them. It returns a matrix equal to the
-- given one, unless the allocator refuses a call; then it reports the failed allocation.
pub dup-Duplicates :
    {V : Type 0} (grants : Grants) (m : Sides V) (n : ℕ × ℕ) (rows columns : ℕ) (s : Alloc)
    → validate_structure (some (sides_shape m)) ≡ passed n
    → IsSized m.rows rows n.0
    → IsSized m.columns columns n.1
    → m.rows.ncols ≡ pos columns
    → s.gave_up ≡ false
    → Duplicates grants m (dup grants m s)
dup-Duplicates grants m n rows columns s accepted z z' e clear =
    subst (Duplicates grants m) (sym (dup-eq grants m n s accepted))
      (dup_valid-Duplicates grants m rows columns n.0 n.1 z z' s e clear)
