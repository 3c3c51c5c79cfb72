-- ===== src/Csr/Extract/Whole.antt =====
-- gk_csr_ExtractSubmatrix from its checks to its result.
use mathlib.Core.Path.{subst}
use gklib.Base.{
  ℕ, suc, ◌+◌, ◌-◌, ◌≤◌, ◌≡◌, refl, sym, ap, ◌∙◌, inl, inr, true, false, Option, none, some, List,
  length, leb, ltb, arith,
}
use gklib.Csr.{ℤ, pos, passed, validate_structure}
use gklib.Csr.Valid.{at, IsSparse}
use gklib.Csr.Structure.{IsSide, IsMatrix, MatrixHasRoom, validate_structure-Decides}
use gklib.Csr.Extract.{
  Alloc, Grants, Rows, Full, shape, out_of_rows, extract_rows, extract_valid, extract_submatrix,
}
use gklib.Csr.Extract.Copies.{Covers}
use gklib.Csr.Extract.CopyRows.{CoversRows}
use gklib.Csr.Extract.Rebase.{Span, rows-Span}
use gklib.Csr.Extract.Submatrix.{ExtractEnds, extract_rows-Ends}

-- The arrays of the rows have an element for each of `rows` rows, or for each of `n` entries.
pub record RowsHaveRoom {V : Type 0} (m : Rows V) (rows n : ℕ) : Type 0 where
  pub rowptr : Covers (suc rows) m.rowptr
  pub rowind : Covers n m.rowind
  pub rowval : Covers n m.rowval
  pub rowids : Covers rows m.rowids
  pub rlabels : Covers rows m.rlabels
  pub rmap : Covers rows m.rmap
  pub rnorms : Covers rows m.rnorms
  pub rsums : Covers rows m.rsums
  pub rsizes : Covers rows m.rsizes
  pub rvols : Covers rows m.rvols
  pub rwgts : Covers rows m.rwgts

Covers-mono : {A : Type 0} (a b : ℕ) (o : Option (List A)) → a ≤ b → Covers b o → Covers a o
Covers-mono a b none h c = tt
Covers-mono a b (some l) h c = omega (arith, h, c)

module _ {V : Type 0} (m : Rows V) (rows n rstart nrows : ℕ) (ptr : List ℤ)
    (room : RowsHaveRoom m rows n) (inside : rstart + nrows ≤ rows) where
  covers :
      {dimension other : ℕ} {ind : Option (List ℤ)} {val : Option (List V)}
      (s : IsSparse dimension other ptr ind val n)
      → rows ≡ dimension
      → (sp : Span n (at ptr rstart) (at ptr (rstart + nrows)))
      → CoversRows m rstart nrows sp.from sp.nnz
  covers s e sp = record {
    rowptr =
        Covers-mono (rstart + suc nrows) (suc rows) m.rowptr (omega (arith, inside)) room.rowptr;
    rowind = Covers-mono (sp.from + sp.nnz) n m.rowind sp.inside room.rowind;
    rowval = Covers-mono (sp.from + sp.nnz) n m.rowval sp.inside room.rowval;
    rowids = Covers-mono (rstart + nrows) rows m.rowids inside room.rowids;
    rlabels = Covers-mono (rstart + nrows) rows m.rlabels inside room.rlabels;
    rmap = Covers-mono (rstart + nrows) rows m.rmap inside room.rmap;
    rnorms = Covers-mono (rstart + nrows) rows m.rnorms inside room.rnorms;
    rsums = Covers-mono (rstart + nrows) rows m.rsums inside room.rsums;
    rsizes = Covers-mono (rstart + nrows) rows m.rsizes inside room.rsizes;
    rvols = Covers-mono (rstart + nrows) rows m.rvols inside room.rvols;
    rwgts = Covers-mono (rstart + nrows) rows m.rwgts inside room.rwgts;
    few = omega (arith, s.few, e, inside);
    small = omega (arith, s.small, sp.inside);
  }

  in_rows : out_of_rows (pos rows) (pos rstart) (pos nrows) ≡ false
  in_rows =
      let a : ltb rstart 0 ≡ false = ground arith in
      let b : ltb nrows 0 ≡ false = ground arith in
      let c : ltb rows rstart ≡ false = ground (arith, inside) in
      let d : leb rstart rows ≡ true = ground (arith, inside) in
      let e : ltb (rows - rstart) nrows ≡ false = ground (arith, inside) in rw (a, b, c, d, e) refl

wide_enough :
    (o : Option (List ℤ)) (ptr : List ℤ) (rows rstart nrows : ℕ)
    → o ≡ some ptr
    → Covers (suc rows) o
    → rstart + nrows ≤ rows
    → rstart + suc nrows ≤ length ptr
wide_enough o ptr rows rstart nrows e c inside =
    let c' : suc rows ≤ length ptr = subst (λ p. Covers (suc rows) p) e c in
    omega (arith, c', inside)

extract_valid-eq :
    {V : Type 0} (grants : Grants) (m : Rows V) (ptr : List ℤ) (rstart nrows : ℕ) (s : Alloc)
    → out_of_rows m.nrows (pos rstart) (pos nrows) ≡ false
    → extract_valid grants m (some ptr) (pos rstart) (pos nrows) s
      ≡ extract_rows grants m ptr rstart nrows s
unfolding extract_valid
extract_valid-eq grants m ptr rstart nrows s e = simp (e)

extract_submatrix-eq :
    {V : Type 0} (grants : Grants) (m : Full V) (a b : ℤ) (s : Alloc) (n : ℕ × ℕ)
    → validate_structure (some (shape m)) ≡ passed n
    → extract_submatrix grants m a b s ≡ extract_valid grants m.rows m.rows.rowptr a b s
unfolding extract_submatrix
extract_submatrix-eq grants m a b s n e = rw (extract_submatrix, e) refl

-- For a valid matrix with rows, whose arrays reach as far as its numbers say, and a range of its rows,
-- `gk_csr_ExtractSubmatrix` stays inside all arrays. It returns the matrix of these rows, with their
-- entries, their data and their pointers counted from the first entry, unless the allocator refuses a
-- call; then it reports the failed allocation.
pub extract_submatrix-Ends :
    {V : Type 0} (grants : Grants) (m : Full V) (n : ℕ × ℕ) (ptr : List ℤ) (rstart nrows : ℕ)
    (s : Alloc) (valid : IsMatrix (shape m) n)
    → MatrixHasRoom (shape m)
    → m.rows.rowptr ≡ some ptr
    → RowsHaveRoom m.rows valid.rows n.0
    → rstart + nrows ≤ valid.rows
    → s.gave_up ≡ false
    → ExtractEnds grants m.rows ptr rstart nrows
        (extract_submatrix grants m (pos rstart) (pos nrows) s)
extract_submatrix-Ends {V} grants m n ptr rstart nrows s valid room here rows_room inside clear =
    let side : IsSparse valid.rows valid.columns ptr m.rows.rowind m.rows.rowval n.0 =
      subst (λ o. IsSide valid.rows valid.columns o m.rows.rowind m.rows.rowval n.0) here
        valid.row_side in
    let sp = rows-Span side rstart nrows inside in
    let fits : out_of_rows m.rows.nrows (pos rstart) (pos nrows) ≡ false =
      ap (λ a. out_of_rows a (pos rstart) (pos nrows)) valid.nrows
      ∙ in_rows m.rows valid.rows n.0 rstart nrows ptr rows_room inside in
    elim (validate_structure-Decides (shape m) room) [
      | inr (e, (h, never)) ↦ absurd (never n valid)
      | inl (n', (h, valid')) ↦
          let same =
            extract_submatrix-eq grants m (pos rstart) (pos nrows) s n' h
            ∙ ap (λ o. extract_valid grants m.rows o (pos rstart) (pos nrows) s) here
            ∙ extract_valid-eq grants m.rows ptr rstart nrows s fits in
          subst (ExtractEnds grants m.rows ptr rstart nrows) (sym same) (
            extract_rows-Ends grants m.rows ptr rstart nrows n.0 sp
              (wide_enough m.rows.rowptr ptr valid.rows rstart nrows here rows_room.rowptr inside)
              here (covers m.rows valid.rows n.0 rstart nrows ptr rows_room inside side refl sp) s
              clear)
    ]
