-- ===== src/Csr/Structure.antt =====
-- gk_csr_ValidateStructure and the valid matrices.
use gklib.Base.{
  ℕ, suc, ◌≡◌, refl, ap, ◌∙◌, inl, inr, not, ◌&&◌, ◌||◌, Option, none, some, List, arith,
}
use gklib.Base.Outcome.{einval}
use gklib.Csr.{
  ℤ, pos, negsuc, Checked, passed, ◌>>=◌, refuse_if, present, Matrix, validate_side,
  validate_structure,
}
use gklib.Csr.Verdict.{Decides, DecidesOf, iff-Decides, then-Decides}
use gklib.Csr.Valid.{IsSparse, HasRoom, rank}
use gklib.Csr.SparseView.{validate_sparse_view-Decides}

both-Decides :
    {A B : Type 0} {P : A → Type 0} {Q : B → Type 0} (c : Checked A) (d : Checked B)
    → Decides c P
    → Decides d Q
    → Decides {A = A × B} (c >>= λ a. d >>= λ b. passed (a, b)) (λ p. P p.0 × Q p.1)
both-Decides c d (inl (a, (e, p))) (inl (b, (e', q))) = inl (
  (a, b),
  (ap (λ r. r >>= λ x. d >>= λ y. passed (x, y)) e ∙ ap (λ r. r >>= λ y. passed (a, y)) e', (p, q)),
)
both-Decides c d (inl (a, (e, p))) (inr (err, (e', never))) = inr (
  err,
  (
    ap (λ r. r >>= λ x. d >>= λ y. passed (x, y)) e ∙ ap (λ r. r >>= λ y. passed (a, y)) e',
    λ x q. never x.1 q.1,
  ),
)
both-Decides c d (inr (err, (e, never))) w =
    inr (err, (ap (λ r. r >>= λ x. d >>= λ y. passed (x, y)) e, λ x q. never x.0 q.0))

abbrev pub SideHasRoom : ℕ → Option (List ℤ) → Option (List ℤ) → Type 0
SideHasRoom dimension none ind = Unit {0}
SideHasRoom dimension (some ptr) ind = HasRoom dimension ptr ind

module _ {V : Type 0} where
  -- Without pointers there are no indices and no values.
  abbrev pub NullTogether : Option (List ℤ) → Option (List ℤ) → Option V → Type 0
  NullTogether none none none = Unit {0}
  NullTogether none none (some v) = ⊥
  NullTogether none (some ind) val = ⊥
  NullTogether (some ptr) ind val = Unit {0}

  -- A side of the matrix: a valid view, or nothing and 0 entries.
  abbrev pub IsSide : ℕ → ℕ → Option (List ℤ) → Option (List ℤ) → Option V → ℕ → Type 0
  IsSide dimension other none ind val n = n ≡ 0
  IsSide dimension other (some ptr) ind val n = IsSparse dimension other ptr ind val n

  validate_side-Decides :
      (dimension other : ℕ) (ptr ind : Option (List ℤ)) (val : Option V)
      → SideHasRoom dimension ptr ind
      → Decides (validate_side dimension other ptr ind val) (IsSide dimension other ptr ind val)
  unfolding validate_side
  validate_side-Decides dimension other none ind val room = inl (0, (refl, refl))
  validate_side-Decides dimension other (some ptr) ind val room =
      validate_sparse_view-Decides dimension other ptr ind val room

  null-Decides :
      (ptr ind : Option (List ℤ)) (val : Option V)
      → DecidesOf
          (refuse_if (not (present ptr) && (present ind || present val)) einval)
          (NullTogether ptr ind val)
  null-Decides none none none = inl (tt, (refl, tt))
  null-Decides none none (some v) = inr (einval, (refl, λ u p. p))
  null-Decides none (some ind) val = inr (einval, (refl, λ u p. p))
  null-Decides (some ptr) ind val = inl (tt, (refl, tt))

-- A matrix: its numbers of rows and columns are not negative, and its two sides are valid.
pub record IsMatrix {V : Type 0} (m : Matrix V) (n : ℕ × ℕ) : Type 0 where
  pub rows : ℕ
  pub columns : ℕ
  pub nrows : m.nrows ≡ pos rows
  pub ncols : m.ncols ≡ pos columns
  pub row_nulls : NullTogether m.rowptr m.rowind m.rowval
  pub col_nulls : NullTogether m.colptr m.colind m.colval
  pub row_side : IsSide rows columns m.rowptr m.rowind m.rowval n.0
  pub col_side : IsSide columns rows m.colptr m.colind m.colval n.1

-- The arrays of each side reach far enough for its dimension.
pub record MatrixHasRoom {V : Type 0} (m : Matrix V) : Type 0 where
  pub row_room : (rows : ℕ) → m.nrows ≡ pos rows → SideHasRoom rows m.rowptr m.rowind
  pub col_room : (columns : ℕ) → m.ncols ≡ pos columns → SideHasRoom columns m.colptr m.colind

module _ {V : Type 0} (rowptr rowind : Option (List ℤ)) (rowval : Option V)
    (colptr colind : Option (List ℤ)) (colval : Option V) where
  abbrev sized : ℤ → ℤ → Matrix V
  sized a b = record {
    nrows = a;
    ncols = b;
    rowptr = rowptr;
    rowind = rowind;
    rowval = rowval;
    colptr = colptr;
    colind = colind;
    colval = colval;
  }

  abbrev Sides : ℕ → ℕ → ℕ × ℕ → Type 0
  Sides r c n =
      NullTogether rowptr rowind rowval
      × (NullTogether colptr colind colval
          × (IsSide r c rowptr rowind rowval n.0 × IsSide c r colptr colind colval n.1))

  Sides-Decides :
      (r c : ℕ)
      → SideHasRoom r rowptr rowind
      → SideHasRoom c colptr colind
      → Decides (validate_structure (some (sized (pos r) (pos c)))) (Sides r c)
  unfolding validate_structure
  Sides-Decides r c rows columns = then-Decides _ _ (null-Decides rowptr rowind rowval) (λ _.
      then-Decides _ _ (null-Decides colptr colind colval) (λ _.
        both-Decides _ _ (validate_side-Decides r c rowptr rowind rowval rows)
          (validate_side-Decides c r colptr colind colval columns)))

  collected : (r c : ℕ) (n : ℕ × ℕ) → Sides r c n → IsMatrix (sized (pos r) (pos c)) n
  collected r c n (nulls, (nulls', (side, side'))) = record {
    rows = r;
    columns = c;
    nrows = refl;
    ncols = refl;
    row_nulls = nulls;
    col_nulls = nulls';
    row_side = side;
    col_side = side';
  }

  apart : (r c : ℕ) (n : ℕ × ℕ) → IsMatrix (sized (pos r) (pos c)) n → Sides r c n
  apart r c n s =
      let h : suc r ≡ suc s.rows = ap rank s.nrows in
      let h' : suc c ≡ suc s.columns = ap rank s.ncols in
      let e : r ≡ s.rows = omega (arith, h) in
      let e' : c ≡ s.columns = omega (arith, h') in
      (s.row_nulls, (s.col_nulls, rw (e, e') (s.row_side, s.col_side)))

  sized-Decides :
      (a b : ℤ)
      → MatrixHasRoom (sized a b)
      → Decides (validate_structure (some (sized a b))) (IsMatrix (sized a b))
  unfolding validate_structure
  sized-Decides (negsuc a) b room =
      inr (
        einval,
        (refl, λ n s. let h : 0 ≡ suc s.rows = ap rank s.nrows in absurd (omega (arith, h))),
      )
  sized-Decides (pos r) (negsuc b) room = inr (
    einval,
    (refl, λ n s. let h : 0 ≡ suc s.columns = ap rank s.ncols in absurd (omega (arith, h))),
  )
  sized-Decides (pos r) (pos c) room =
      iff-Decides (validate_structure (some (sized (pos r) (pos c)))) (collected r c) (apart r c)
        (Sides-Decides r c (room.row_room r refl) (room.col_room c refl))

-- `gk_csr_ValidateStructure` of a matrix whose arrays reach as far as its numbers say reads no place
-- outside them; it returns the numbers of entries of the two sides exactly if the matrix is valid with
-- these, and otherwise fails with an error.
pub validate_structure-Decides :
    {V : Type 0} (m : Matrix V)
    → MatrixHasRoom m
    → Decides (validate_structure (some m)) (IsMatrix m)
validate_structure-Decides m room =
    sized-Decides m.rowptr m.rowind m.rowval m.colptr m.colind m.colval m.nrows m.ncols room
