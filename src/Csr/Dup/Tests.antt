-- ===== src/Csr/Dup/Tests.antt =====
-- A copy of a matrix with its rows only.
use gklib.Base.{
  ℕ, ◌≡◌, refl, true, false, Option, none, some, List, [], ◌∷◌, ltb, if◌then◌else◌, arith,
}
use gklib.Base.Outcome.{unset, eoverflow, sigmem, ok, raised}
use gklib.Csr.{
  ℤ, pos, passed, check_each, check_pointer, check_index, check_entries, check_view,
  validate_sparse_view, validate_side, validate_structure,
}
use gklib.Csr.Extract.{Alloc, Grants, malloc_no_signal, copy_no_signal, copy_if, Rows, copy_rows}
use gklib.Csr.Dup.{Sides, sides_shape, copy_sides, unless_failed, dup_valid, dup}
use gklib.Csr.Dup.Equal.{IsSized, Duplicates, dup-Duplicates}

program : Unit {0}
unfolding check_each check_pointer check_index check_entries check_view validate_sparse_view
    validate_side validate_structure malloc_no_signal copy_no_signal copy_if copy_rows copy_sides
    unless_failed dup_valid dup
program = tt

abbrev side : ℤ → ℤ → Option (List ℤ) → Option (List ℤ) → Option (List ℕ) → Rows ℕ
side nrows ncols ptr ind norms = record {
  nrows = nrows;
  ncols = ncols;
  rowptr = ptr;
  rowind = ind;
  rowval = none;
  rowids = none;
  rlabels = none;
  rmap = none;
  rnorms = norms;
  rsums = none;
  rsizes = none;
  rvols = none;
  rwgts = none;
}

abbrev pattern_matrix : Sides ℕ
pattern_matrix = record {
  rows =
      side (pos 1) (pos 2) (some (pos 0 ∷ pos 2 ∷ [])) (some (pos 1 ∷ pos 0 ∷ [])) (some (5 ∷ []));
  columns = side (pos 2) (pos 1) none none (some (3 ∷ 4 ∷ []));
}

abbrev fresh : Alloc
fresh = record { calls = 0; gave_up = false; errno = unset }

abbrev all_but : ℕ → Grants
all_but n k bytes = if ltb k n then none else some eoverflow

copied_matrix :
    dup (all_but 9) pattern_matrix fresh ≡ ok pattern_matrix (record fresh { calls = 5 })
unfolding program
copied_matrix = refl

out_of_memory :
    dup (all_but 2) pattern_matrix fresh
    ≡ raised sigmem eoverflow (record { calls = 3; gave_up = true; errno = eoverflow })
unfolding program
out_of_memory = refl

accepted : validate_structure (some (sides_shape pattern_matrix)) ≡ passed (2, 0)
unfolding program
accepted = refl

IsSized-rows : IsSized pattern_matrix.rows 1 2
IsSized-rows = record {
  nrows = refl;
  rowptr = refl;
  rowind = refl;
  rowval = tt;
  rowids = tt;
  rlabels = tt;
  rmap = tt;
  rnorms = refl;
  rsums = tt;
  rsizes = tt;
  rvols = tt;
  rwgts = tt;
  few = omega arith;
  small = omega arith;
}

IsSized-columns : IsSized pattern_matrix.columns 2 0
IsSized-columns = record {
  nrows = refl;
  rowptr = tt;
  rowind = tt;
  rowval = tt;
  rowids = tt;
  rlabels = tt;
  rmap = tt;
  rnorms = refl;
  rsums = tt;
  rsizes = tt;
  rvols = tt;
  rwgts = tt;
  few = omega arith;
  small = omega arith;
}

dup-Duplicates_example :
    Duplicates (all_but 9) pattern_matrix (dup (all_but 9) pattern_matrix fresh)
dup-Duplicates_example =
    dup-Duplicates (all_but 9) pattern_matrix (2, 0) 1 2 fresh accepted IsSized-rows IsSized-columns
      refl refl
