-- ===== src/Sparse/Tests.antt =====
-- A matrix of two rows and three columns, and its columns; an array of four keys.
use gklib.Base.{ℕ, zero, suc, ◌≤◌, ◌<◌, ◌≡◌, refl, some, List, [], ◌∷◌, get_or, arith}
use gklib.Sparse.{
  View, for_range, for_entries, shift_right, shift_csr, add_previous, make_csr, bump, put,
  array2csr, put_both, place_majors, place_values, place_both, in_two_passes, in_one_pass,
  create_index,
}
use gklib.Sparse.Views.{IsView, minor_of, Indexed}
use gklib.Sparse.Inverse.{place_of, keyed, array2csr-Indexed}
use gklib.Sparse.Reverse.{Gives, create_index-Reversed}
use gklib.Base.Arrays.{write}

program : Unit {0}
unfolding for_range for_entries shift_right shift_csr add_previous make_csr bump put array2csr
    put_both place_majors place_values place_both in_two_passes in_one_pass create_index write
program = tt

abbrev rows : View ℕ
rows = record { ptr = 0 ∷ 2 ∷ 3 ∷ []; ind = 2 ∷ 0 ∷ 2 ∷ []; val = some (7 ∷ 8 ∷ 9 ∷ []) }

abbrev columns : View ℕ
columns = record { ptr = 0 ∷ 1 ∷ 1 ∷ 3 ∷ []; ind = 0 ∷ 0 ∷ 1 ∷ []; val = some (8 ∷ 7 ∷ 9 ∷ []) }

abbrev blank : List ℕ
blank = 4 ∷ 4 ∷ 4 ∷ []

columns_of_rows : create_index 2 3 rows blank blank ≡ some columns
unfolding program
columns_of_rows = refl

-- Seven entries in one column are placed in two passes.
abbrev tall : View ℕ
tall = record {
  ptr = 0 ∷ 7 ∷ [];
  ind = 0 ∷ 0 ∷ 0 ∷ 0 ∷ 0 ∷ 0 ∷ 0 ∷ [];
  val = some (1 ∷ 2 ∷ 3 ∷ 4 ∷ 5 ∷ 6 ∷ 7 ∷ []);
}

two_passes : create_index 1 1 tall (1 ∷ 1 ∷ 1 ∷ 1 ∷ 1 ∷ 1 ∷ 1 ∷ []) tall.ind ≡ some tall
unfolding program
two_passes = refl

rows_rising : (k : ℕ) → k < 2 → get_or rows.ptr k 0 ≤ get_or rows.ptr (suc k) 0
rows_rising zero l = omega arith
rows_rising (suc zero) l = omega arith
rows_rising (suc (suc k)) l = absurd (omega arith)

rows_minors : (j : ℕ) → j < 3 → get_or rows.ind j 0 < 3
rows_minors zero l = omega arith
rows_minors (suc zero) l = omega arith
rows_minors (suc (suc zero)) l = omega arith
rows_minors (suc (suc (suc j))) l = absurd (omega arith)

rows-IsView : IsView 2 3 rows
rows-IsView = record {
  width = refl;
  start = refl;
  rising = rows_rising;
  ends = omega arith;
  minors = rows_minors;
  values = omega arith;
}

create_index-Reversed_example : Gives 0 2 3 rows (create_index 2 3 rows blank blank)
create_index-Reversed_example = create_index-Reversed 0 2 3 rows blank blank rows-IsView refl refl

abbrev keys : List ℕ
keys = 1 ∷ 0 ∷ 1 ∷ 1 ∷ []

positions :
    array2csr 4 2 keys (5 ∷ 5 ∷ 5 ∷ []) (6 ∷ 6 ∷ 6 ∷ 6 ∷ [])
    ≡ some (0 ∷ 1 ∷ 4 ∷ [], 1 ∷ 0 ∷ 2 ∷ 3 ∷ [])
unfolding program
positions = refl

keys_low : (i : ℕ) → i < 4 → get_or keys i 0 < 2
keys_low zero l = omega arith
keys_low (suc zero) l = omega arith
keys_low (suc (suc zero)) l = omega arith
keys_low (suc (suc (suc zero))) l = omega arith
keys_low (suc (suc (suc (suc i)))) l = absurd (omega arith)

array2csr-Indexed_example :
    (o : List ℕ × List ℕ) × ((array2csr 4 2 keys (5 ∷ 5 ∷ 5 ∷ []) (6 ∷ 6 ∷ 6 ∷ 6 ∷ []) ≡ some o)
      × Indexed minor_of place_of 2 (keyed 4 keys) o.0 o.1)
array2csr-Indexed_example =
    array2csr-Indexed 4 2 keys (5 ∷ 5 ∷ 5 ∷ []) (6 ∷ 6 ∷ 6 ∷ 6 ∷ []) (omega arith) keys_low refl
      (omega arith)
