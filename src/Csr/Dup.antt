-- ===== src/Csr/Dup.antt =====
-- gk_csr_Dup of src/csr.c, with the helpers of gk_csr_ExtractSubmatrix.
pub mod Equal
mod Tests
use gklib.Base.{ℕ, Bool, true, false, Option, none, some, List, if◌then◌else◌}
use gklib.Base.Outcome.{Outcome, ok, raised, fault}
use gklib.Csr.{ℤ, Checked, passed, failed, stray, Matrix, validate_structure}
use gklib.Csr.Extract.{
  Alloc, Run, and_run, ◌>>=◌, give, Grants, malloc_no_signal, Rows, copy_rows, number,
  transform_error, allocation_failure,
}

-- A matrix with both sides; the columns are the rows of the transposed matrix.
pub record Sides (V : Type 0) : Type 0 where
  pub rows : Rows V
  pub columns : Rows V

module _ {V : Type 0} where
  -- What `gk_csr_ValidateStructure` looks at.
  abbrev pub sides_shape : Sides V → Matrix (List V)
  sides_shape m = record {
    nrows = m.rows.nrows;
    ncols = m.rows.ncols;
    rowptr = m.rows.rowptr;
    rowind = m.rows.rowind;
    rowval = m.rows.rowval;
    colptr = m.columns.rowptr;
    colind = m.columns.rowind;
    colval = m.columns.rowval;
  }

  -- The copies of the two sides.
  unfoldable pub copy_sides : Grants → Sides V → ℕ → ℕ → ℕ → ℕ → Run (Sides V)
  copy_sides grants m nrows ncols rownnz colnnz = do
    rows ← copy_rows grants m.rows 0 nrows 0 rownnz
    columns ← copy_rows grants m.columns 0 ncols 0 colnnz
    give (record { rows = rows; columns = columns })

  -- `if (allocation_failed) goto allocation_failure`.
  unfoldable pub unless_failed : Option (Alloc × Sides V) → Outcome Alloc (Sides V)
  unless_failed none = fault
  unless_failed (some r) = if r.0.gave_up then allocation_failure r.0 else ok r.1 r.0

  -- `gk_csr_CreateNoSignal` and the copies.
  unfoldable pub dup_valid : Grants → Sides V → ℕ → ℕ → Alloc → Outcome Alloc (Sides V)
  dup_valid grants m rownnz colnnz s = elim (number m.rows.nrows) [
    | none ↦ fault
    | some nrows ↦ elim (number m.rows.ncols) [
      | none ↦ fault
      | some ncols ↦
          let created = malloc_no_signal grants 184 s in
          if created.1
          then unless_failed (copy_sides grants m nrows ncols rownnz colnnz created.0)
          else allocation_failure created.0
    ]
  ]

  -- `gk_csr_Dup`.
  unfoldable pub dup : Grants → Sides V → Alloc → Outcome Alloc (Sides V)
  dup grants m s = elim (validate_structure (some (sides_shape m))) [
    | passed n ↦ dup_valid grants m n.0 n.1 s
    | failed e ↦ transform_error false e s
    | stray ↦ fault
  ]
