-- ===== src/Csr/Extract/Tests.antt =====
-- The last of two rows, with granted calls and with a refused one.
use gklib.Base.{
  ℕ, zero, suc, ◌<◌, ◌≡◌, refl, ap, true, false, none, some, List, [], ◌∷◌, ltb, if◌then◌else◌,
  arith,
}
use gklib.Base.Arrays.{write}
use gklib.Base.Outcome.{unset, enomem, sigmem, einval, sigerr, ok, raised}
use gklib.Csr.{
  ℤ, pos, check_each, check_pointer, check_index, check_entries, check_view, validate_sparse_view,
  validate_side, validate_structure,
}
use gklib.Csr.Valid.{at, Step, InRange, HasRoom, rank, IsSparse}
use gklib.Csr.Structure.{IsMatrix, MatrixHasRoom}
use gklib.Csr.Extract.{
  Alloc, Grants, malloc_no_signal, copy_no_signal, copy_if, Rows, Full, shape, copy_rows,
  subtract_first, rebase, conclude, extract_rows, extract_valid, extract_submatrix,
}
use gklib.Csr.Extract.Submatrix.{ExtractEnds}
use gklib.Csr.Extract.Keeps.{IsExtracted, extract_submatrix-IsExtracted}
use gklib.Csr.Extract.Whole.{RowsHaveRoom, extract_submatrix-Ends}

program : Unit {0}
unfolding check_each check_pointer check_index check_entries check_view validate_sparse_view
    validate_side validate_structure malloc_no_signal copy_no_signal copy_if copy_rows
    subtract_first rebase conclude extract_rows extract_valid extract_submatrix write
program = tt

abbrev pointers : List ℤ
pointers = pos 0 ∷ pos 2 ∷ pos 3 ∷ []

abbrev indices : List ℤ
indices = pos 2 ∷ pos 0 ∷ pos 2 ∷ []

abbrev table : Full ℕ
table = record {
  rows = record {
    nrows = pos 2;
    ncols = pos 3;
    rowptr = some pointers;
    rowind = some indices;
    rowval = some (7 ∷ 8 ∷ 9 ∷ []);
    rowids = some (pos 10 ∷ pos 11 ∷ []);
    rlabels = none;
    rmap = none;
    rnorms = none;
    rsums = none;
    rsizes = none;
    rvols = none;
    rwgts = none;
  };
  colptr = none;
  colind = none;
  colval = none;
}

abbrev last_row : Rows ℕ
last_row = record {
  nrows = pos 1;
  ncols = pos 3;
  rowptr = some (pos 0 ∷ pos 1 ∷ []);
  rowind = some (pos 2 ∷ []);
  rowval = some (9 ∷ []);
  rowids = some (pos 11 ∷ []);
  rlabels = none;
  rmap = none;
  rnorms = none;
  rsums = none;
  rsizes = none;
  rvols = none;
  rwgts = none;
}

abbrev start : Alloc
start = record { calls = 0; gave_up = false; errno = unset }

-- The allocator grants the first calls.
abbrev first_calls : ℕ → Grants
first_calls n k bytes = if ltb k n then none else some enomem

second_row :
    extract_submatrix (first_calls 5) table (pos 1) (pos 1) start
    ≡ ok last_row (record start { calls = 5 })
unfolding program
second_row = refl

refused_copy :
    extract_submatrix (first_calls 3) table (pos 1) (pos 1) start
    ≡ raised sigmem enomem (record { calls = 4; gave_up = true; errno = enomem })
unfolding program
refused_copy = refl

-- There is no third row.
past_the_end :
    extract_submatrix (first_calls 5) table (pos 1) (pos 2) start ≡ raised sigerr einval start
unfolding program
past_the_end = refl

steps : (k : ℕ) → k < 2 → Step (at pointers k) (at pointers (suc k))
steps zero l = omega arith
steps (suc zero) l = omega arith
steps (suc (suc k)) l = absurd (omega arith)

in_columns : (k : ℕ) → k < 3 → InRange 3 (at indices k)
in_columns zero l = omega arith
in_columns (suc zero) l = omega arith
in_columns (suc (suc zero)) l = omega arith
in_columns (suc (suc (suc k))) l = absurd (omega arith)

table_side : IsSparse 2 3 pointers (some indices) table.rows.rowval 3
table_side = record {
  first = refl;
  rising = steps;
  last = refl;
  inside = in_columns;
  paired = tt;
  few = omega arith;
  small = omega arith;
}

abbrev table-IsMatrix : IsMatrix (shape table) (3, 0)
table-IsMatrix = record {
  rows = 2;
  columns = 3;
  nrows = refl;
  ncols = refl;
  row_nulls = tt;
  col_nulls = tt;
  row_side = table_side;
  col_side = refl;
}

table_room : HasRoom 2 pointers (some indices)
table_room = (omega arith, λ n e. let h : 4 ≡ suc n = ap rank e in omega (arith, h))

table-MatrixHasRoom : MatrixHasRoom (shape table)
table-MatrixHasRoom = record {
  row_room = λ n e.
      let h : 3 ≡ suc n = ap rank e in let two : n ≡ 2 = omega (arith, h) in rw two table_room;
  col_room = λ n e. tt;
}

table-RowsHaveRoom : RowsHaveRoom table.rows 2 3
table-RowsHaveRoom = record {
  rowptr = omega arith;
  rowind = omega arith;
  rowval = omega arith;
  rowids = omega arith;
  rlabels = tt;
  rmap = tt;
  rnorms = tt;
  rsums = tt;
  rsizes = tt;
  rvols = tt;
  rwgts = tt;
}

extract_submatrix-Ends_example :
    ExtractEnds
      (first_calls 5)
      table.rows
      pointers
      1
      1
      (extract_submatrix (first_calls 5) table (pos 1) (pos 1) start)
extract_submatrix-Ends_example =
    extract_submatrix-Ends (first_calls 5) table (3, 0) pointers 1 1 start table-IsMatrix
      table-MatrixHasRoom refl table-RowsHaveRoom (omega arith) refl

extract_submatrix-IsExtracted_example : IsExtracted pointers 1 1 last_row
extract_submatrix-IsExtracted_example =
    extract_submatrix-IsExtracted (first_calls 5) table (3, 0) pointers 1 1 start table-IsMatrix
      table-MatrixHasRoom refl table-RowsHaveRoom (omega arith) refl last_row
      (record start { calls = 5 }) second_row
