-- ===== src/Csr/Extract/Keeps.antt =====
-- The matrix that gk_csr_ExtractSubmatrix returns, read as one that the checks accept.
use mathlib.Core.Path.{subst}
use gklib.Base.{
  length, ℕ, suc, ◌+◌, ◌≤◌, ◌≡◌, refl, sym, ap, ◌∙◌, inl, inr, false, Option, none, some, List,
  arith,
}
use gklib.Base.Outcome.{Outcome, ok, raised, fault}
use gklib.Csr.{validate_structure, passed, ℤ, pos}
use gklib.Csr.Valid.{rank, Reaches, at, IsSparse}
use gklib.Csr.Structure.{
  SideHasRoom, validate_structure-Decides, NullTogether, IsMatrix, MatrixHasRoom, IsSide,
}
use gklib.Csr.Extract.{Alloc, Grants, Rows, Full, shape, extract_submatrix}
use gklib.Csr.Extract.Copies.{part, Covers}
use gklib.Csr.Extract.Submatrix.{length_slice, Extracted}
use gklib.Csr.Extract.Whole.{RowsHaveRoom, extract_submatrix-Ends}
use gklib.Csr.Extract.Side.{stop_low, extracted_last, Extracted-IsSparse}

-- The result as a matrix: no columns are made.
abbrev pub alone : {V : Type 0} → Rows V → Full V
alone r = record { rows = r; colptr = none; colind = none; colval = none }

abbrev result_of : {V : Type 0} → Rows V → Outcome Alloc (Rows V) → Rows V
result_of d (ok r s) = r
result_of d (raised signal e s) = d
result_of d fault = d

abbrev came_back : {A : Type 0} → Outcome Alloc A → ℕ
came_back (ok a s) = 1
came_back (raised signal e s) = 0
came_back fault = 0

alone-IsMatrix :
    {V : Type 0} (r : Rows V) (rows columns : ℕ) (pointers : List ℤ) (n : ℕ)
    → r.nrows ≡ pos rows
    → r.ncols ≡ pos columns
    → r.rowptr ≡ some pointers
    → IsSparse rows columns pointers r.rowind r.rowval n
    → IsMatrix (shape (alone r)) (n, 0)
alone-IsMatrix r rows columns pointers n e e' here side = record {
  rows = rows;
  columns = columns;
  nrows = e;
  ncols = e';
  row_nulls = subst (λ o. NullTogether o r.rowind r.rowval) (sym here) tt;
  col_nulls = tt;
  row_side = subst (λ o. IsSide rows columns o r.rowind r.rowval n) (sym here) side;
  col_side = refl;
}

-- What a matrix of the rows from `rstart` on is: it has the entries between the pointers of the first
-- row and of the end, it is valid with them, its pointers and indices reach as far as its numbers say, and the check
-- accepts it with this count.
pub record IsExtracted {V : Type 0} (ptr : List ℤ) (rstart nrows : ℕ) (r : Rows V) : Type 0 where
  pub from : ℕ
  pub nnz : ℕ
  pub start : at ptr rstart ≡ pos from
  pub stop : at ptr (rstart + nrows) ≡ pos (from + nnz)
  pub whole : IsMatrix (shape (alone r)) (nnz, 0)
  pub room : MatrixHasRoom (shape (alone r))
  pub accepted : validate_structure (some (shape (alone r))) ≡ passed (nnz, 0)

pos-injective : (a b : ℕ) → pos a ≡ pos b → a ≡ b
pos-injective a b e = let h : suc a ≡ suc b = ap rank e in omega (arith, h)

part-Reaches :
    (ind : Option (List ℤ)) (n from nnz : ℕ)
    → from + nnz ≤ n
    → Covers n ind
    → Reaches nnz (part ind from nnz)
part-Reaches none n from nnz h c = tt
part-Reaches (some a) n from nnz h c = omega (arith, length_slice a from nnz (omega (arith, h, c)))

alone-MatrixHasRoom :
    {V : Type 0} (r : Rows V) (rows : ℕ) (pointers : List ℤ) (n : ℕ)
    → r.nrows ≡ pos rows
    → r.rowptr ≡ some pointers
    → length pointers ≡ suc rows
    → at pointers rows ≡ pos n
    → Reaches n r.rowind
    → MatrixHasRoom (shape (alone r))
alone-MatrixHasRoom r rows pointers n e here size last reach = record {
  row_room = λ k h.
      let same : rows ≡ k = pos-injective rows k (sym e ∙ h) in
      let side : SideHasRoom rows (some pointers) r.rowind = (
        omega (arith, size),
        λ j l.
            let same' : n ≡ j = pos-injective n j (sym last ∙ l) in
            subst (λ i. Reaches i r.rowind) same' reach,
      ) in
      subst (λ i. SideHasRoom i r.rowptr r.rowind) same
        (subst (λ o. SideHasRoom rows o r.rowind) (sym here) side);
  col_room = λ k h. tt;
}

-- A valid matrix without columns is valid with one count only.
count_unique :
    {V : Type 0} (r : Rows V) (rows : ℕ) (pointers : List ℤ) (n : ℕ) (k : ℕ × ℕ)
    → r.nrows ≡ pos rows
    → r.rowptr ≡ some pointers
    → at pointers rows ≡ pos n
    → IsMatrix (shape (alone r)) k
    → k ≡ (n, 0)
count_unique r rows pointers n k e here last v =
    let same : v.rows ≡ rows = pos-injective v.rows rows (sym v.nrows ∙ e) in
    let side : IsSparse v.rows v.columns pointers r.rowind r.rowval k.0 =
      subst (λ o. IsSide v.rows v.columns o r.rowind r.rowval k.0) here v.row_side in
    let first : k.0 ≡ n =
      pos-injective k.0 n (sym side.last ∙ ap (λ i. at pointers i) same ∙ last) in
    let second : k.1 ≡ 0 = v.col_side in λ i. (first i, second i)

alone-accepted :
    {V : Type 0} (r : Rows V) (rows : ℕ) (pointers : List ℤ) (n : ℕ)
    → r.nrows ≡ pos rows
    → r.rowptr ≡ some pointers
    → at pointers rows ≡ pos n
    → MatrixHasRoom (shape (alone r))
    → IsMatrix (shape (alone r)) (n, 0)
    → validate_structure (some (shape (alone r))) ≡ passed (n, 0)
alone-accepted r rows pointers n e here last room v =
    elim (validate_structure-Decides (shape (alone r)) room) [
      | inl (k, (h, v')) ↦ h ∙ ap passed (count_unique r rows pointers n k e here last v')
      | inr (err, (h, never)) ↦ absurd (never (n, 0) v)
    ]

result-IsExtracted :
    {V : Type 0} (m : Rows V) (ptr : List ℤ) {dimension other n : ℕ}
    (s : IsSparse dimension other ptr m.rowind m.rowval n) (rstart nrows : ℕ)
    (inside : rstart + nrows ≤ dimension) (q : Rows V) (x : Extracted m ptr rstart nrows q)
    → m.ncols ≡ pos other
    → Covers n m.rowind
    → IsExtracted ptr rstart nrows q
result-IsExtracted m ptr {other = other} {n = n} s rstart nrows inside q x wide covers =
    let e : q.nrows ≡ pos nrows = ap (λ z. z.nrows) x.rows in
    let here : q.rowptr ≡ some x.pointers = ap (λ z. z.rowptr) x.rows in
    let last = extracted_last m ptr s rstart nrows inside q x in
    let reach : Reaches x.nnz q.rowind =
      subst (λ z. Reaches x.nnz z.rowind) (sym x.rows)
        (part-Reaches m.rowind n x.from x.nnz (stop_low m ptr s rstart nrows inside q x) covers) in
    let whole =
      alone-IsMatrix q nrows other x.pointers x.nnz e (ap (λ z. z.ncols) x.rows ∙ wide) here
        (Extracted-IsSparse m ptr s rstart nrows inside q x) in
    let room = alone-MatrixHasRoom q nrows x.pointers x.nnz e here x.size last reach in
    record {
      from = x.from;
      nnz = x.nnz;
      start = x.start;
      stop = x.stop;
      whole = whole;
      room = room;
      accepted = alone-accepted q nrows x.pointers x.nnz e here last room whole;
    }

-- If `gk_csr_ExtractSubmatrix` returns, from a valid matrix with rows whose arrays reach as far as its
-- numbers say, a matrix of a range of its rows, then that matrix has as many entries as the given one
-- has between the pointers of the first row and of the end of the range, it is valid with that count,
-- its pointers and its indices reach as far as its numbers say, and `gk_csr_ValidateStructure` accepts
-- it with that count.
pub extract_submatrix-IsExtracted :
    {V : Type 0} (grants : Grants) (m : Full V) (n : ℕ × ℕ) (ptr : List ℤ) (rstart nrows : ℕ)
    (s : Alloc) (valid : IsMatrix (shape m) n)
    → MatrixHasRoom (shape m)
    → m.rows.rowptr ≡ some ptr
    → RowsHaveRoom m.rows valid.rows n.0
    → rstart + nrows ≤ valid.rows
    → s.gave_up ≡ false
    → (r : Rows V) (s' : Alloc) → extract_submatrix grants m (pos rstart) (pos nrows) s ≡ ok r s'
    → IsExtracted ptr rstart nrows r
extract_submatrix-IsExtracted {V} grants m n ptr rstart nrows s valid room here rows_room inside
      clear r s' done =
    elim (extract_submatrix-Ends grants m n ptr rstart nrows s valid room here rows_room inside
      clear) [
        | inr (e, (t, (o, refused))) ↦
            let clash : 1 ≡ 0 = ap came_back (sym done ∙ o) in absurd (omega (arith, clash))
        | inl (q, (t, (o, x))) ↦
            let side : IsSparse valid.rows valid.columns ptr m.rows.rowind m.rows.rowval n.0 =
              subst (λ p. IsSide valid.rows valid.columns p m.rows.rowind m.rows.rowval n.0) here
                valid.row_side in
            let same : q ≡ r = ap (result_of r) (sym o ∙ done) in
            subst (IsExtracted ptr rstart nrows) same (
              result-IsExtracted m.rows ptr side rstart nrows inside q x valid.ncols
                rows_room.rowind)
      ]
