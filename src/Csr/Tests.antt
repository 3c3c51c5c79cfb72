-- ===== src/Csr/Tests.antt =====
-- Checks of a matrix of two rows and three columns, and of permutations of three numbers.
use gklib.Base.{ℕ, suc, ◌≡◌, refl, ap, Option, none, some, List, [], ◌∷◌, arith}
use gklib.Base.Outcome.{einval}
use gklib.Csr.{
  ℤ, pos, passed, failed, Matrix, check_each, check_pointer, check_index, check_entries, check_view,
  validate_sparse_view, validate_side, validate_structure, check_value, check_target, check_targets,
  validate_permutation,
}
use gklib.Csr.Reverse.{view_of, create_index-validated}
use gklib.Sparse.{create_index}
use gklib.Sparse.Reverse.{Gives}
use gklib.Csr.Verdict.{Decides}
use gklib.Csr.Valid.{IsSparse, HasRoom, rank}
use gklib.Csr.SparseView.{validate_sparse_view-Decides}
use gklib.Csr.Structure.{IsMatrix, MatrixHasRoom, validate_structure-Decides}
use gklib.Csr.Permutation.{IsPermutation, validate_permutation-Decides}

program : Unit {0}
unfolding check_each check_pointer check_index check_entries check_view validate_sparse_view
    validate_side validate_structure check_value check_target check_targets validate_permutation
program = tt

abbrev pointers : List ℤ
pointers = pos 0 ∷ pos 2 ∷ pos 3 ∷ []

abbrev indices : Option (List ℤ)
indices = some (pos 2 ∷ pos 0 ∷ pos 2 ∷ [])

abbrev no_values : Option ℕ
no_values = none

abbrev rows_only : Matrix ℕ
rows_only = record {
  nrows = pos 2;
  ncols = pos 3;
  rowptr = some pointers;
  rowind = indices;
  rowval = some 1;
  colptr = none;
  colind = none;
  colval = none;
}

abbrev some_values : Option (List ℕ)
some_values = some (7 ∷ 8 ∷ 9 ∷ [])

three_entries : validate_sparse_view 2 3 (some pointers) indices no_values ≡ passed 3
unfolding program
three_entries = refl

accepted_with_values : validate_sparse_view 2 3 (some pointers) indices some_values ≡ passed 3
unfolding program
accepted_with_values = refl

abbrev blank : List ℕ
blank = 0 ∷ 0 ∷ 0 ∷ []

-- The index 2 is no column of a matrix with two columns.
too_narrow : validate_sparse_view 2 2 (some pointers) indices no_values ≡ failed einval
unfolding program
too_narrow = refl

rows_accepted : validate_structure (some rows_only) ≡ passed (3, 0)
unfolding program
rows_accepted = refl

cycle_accepted : validate_permutation (pos 1 ∷ pos 2 ∷ pos 0 ∷ []) 3 ≡ passed (1 ∷ 1 ∷ 1 ∷ [])
unfolding program
cycle_accepted = refl

repetition_refused : validate_permutation (pos 1 ∷ pos 1 ∷ pos 0 ∷ []) 3 ≡ failed einval
unfolding program
repetition_refused = refl

room : HasRoom 2 pointers indices
room = (omega arith, λ n e. let h : 4 ≡ suc n = ap rank e in omega (arith, h))

validate_sparse_view-Decides_example :
    Decides
      (validate_sparse_view 2 3 (some pointers) indices no_values)
      (IsSparse 2 3 pointers indices no_values)
validate_sparse_view-Decides_example =
    validate_sparse_view-Decides 2 3 pointers indices no_values room

dimension_two : (n : ℕ) → pos 2 ≡ pos n → n ≡ 2
dimension_two n e = let h : 3 ≡ suc n = ap rank e in omega (arith, h)

rows_only-MatrixHasRoom : MatrixHasRoom rows_only
rows_only-MatrixHasRoom = record {
  row_room = λ n e. rw (dimension_two n e) room;
  col_room = λ n e. tt;
}

validate_structure-Decides_example :
    Decides (validate_structure (some rows_only)) (IsMatrix rows_only)
validate_structure-Decides_example = validate_structure-Decides rows_only rows_only-MatrixHasRoom

validate_permutation-Decides_example :
    Decides
      (validate_permutation (pos 1 ∷ pos 2 ∷ pos 0 ∷ []) 3)
      (λ _. IsPermutation (pos 1 ∷ pos 2 ∷ pos 0 ∷ []) 3)
validate_permutation-Decides_example =
    validate_permutation-Decides (pos 1 ∷ pos 2 ∷ pos 0 ∷ []) 3 (omega arith)

abbrev columns_then_rows : List ℤ
columns_then_rows = pos 2 ∷ pos 0 ∷ pos 2 ∷ []

create_index-validated_example :
    Gives 0 2 3
      (view_of pointers columns_then_rows some_values)
      (create_index 2 3 (view_of pointers columns_then_rows some_values) blank blank)
create_index-validated_example =
    create_index-validated 0 2 3 pointers columns_then_rows some_values 3 blank blank room
      accepted_with_values refl (omega arith) refl refl
