-- ===== src/Csr/Extract.antt =====
-- gk_csr_ExtractSubmatrix of src/csr.c, with gk_csr_MallocNoSignal, gk_csr_CreateNoSignal,
-- gk_csr_CopyNoSignal and gk_csr_TransformError. Whether gk_malloc_nosignal grants a call, and the
-- `errno` of one that it refuses, is an argument; the release of a matrix that is given up is left out.
pub mod Copies
pub mod CopyRows
pub mod Rebase
pub mod Submatrix
pub mod Whole
pub mod Side
pub mod Keeps
mod Tests
use gklib.Base.{
  ℕ, zero, suc, ◌+◌, ◌-◌, ◌*◌, ◌/◌, ◌^◌, Bool, true, false, not, ◌||◌, Option, none, some, List, [],
  ◌∷◌, ltb, leb, if◌then◌else◌, length, take, drop, get_elem?, set,
}
use gklib.Base.Arrays.{write}
use gklib.Base.Outcome.{
  Errno, einval, enomem, eoverflow, enospc, unset, Signal, sigerr, sigmem, Outcome, ok, raised,
  fault, or_enomem,
}
use gklib.Base.Size.{size_max}
use gklib.Csr.{
  ℤ, pos, negsuc, Checked, passed, failed, stray, present, less, negative, Matrix,
  validate_structure,
}

-- How far the allocator is: its calls, the flag `allocation_failed`, and `errno`.
pub record Alloc : Type 0 where
  pub calls : ℕ
  pub gave_up : Bool
  pub errno : Errno

-- The flag is set.
abbrev pub give_up : Errno → Alloc → Alloc
give_up e s = record { calls = s.calls; gave_up = true; errno = e }

-- A computation with an allocator; `none` is an access outside an array.
abbrev pub Run : Type 0 → Type 0
Run A = Alloc → Option (Alloc × A)

abbrev pub and_run : {A B : Type 0} → Option (Alloc × A) → (A → Run B) → Option (Alloc × B)
and_run none k = none
and_run (some r) k = k r.1 r.0

infixl 5 ◌>>=◌
abbrev pub ◌>>=◌ : {A B : Type 0} → Run A → (A → Run B) → Run B
m >>= k = λ s. and_run (m s) k

abbrev pub give : {A : Type 0} → A → Run A
give a = λ s. some (s, a)

-- `gk_malloc_nosignal`: whether its call `n`, for `b` bytes, is refused, with the `errno` that it
-- leaves.
abbrev pub Grants : Type 0
Grants = ℕ → ℕ → Option Errno

-- `gk_csr_MallocNoSignal`: a pointer is returned.
unfoldable pub malloc_no_signal : Grants → ℕ → Alloc → Alloc × Bool
malloc_no_signal grants bytes s = if s.gave_up then (s, false) else elim (grants s.calls bytes) [
  | none ↦ (record s { calls = suc s.calls }, true)
  | some e ↦ (give_up e (record s { calls = suc s.calls }), false)
]

-- `memcpy` of `count` elements from `from` on.
abbrev pub slice : {A : Type 0} → List A → ℕ → ℕ → Option (List A)
slice a from count = if leb (from + count) (length a) then some (take count (drop from a)) else none

-- The copy into storage that may be null.
abbrev pub copied : {A : Type 0} → Alloc → Bool → Option (List A) → Option (Alloc × Option (List A))
copied s false a = some (s, none)
copied s true none = none
copied s true (some a) = some (s, some a)

-- `gk_csr_CopyNoSignal` of `count` elements of `size` bytes from `from` on.
unfoldable pub copy_no_signal : {A : Type 0} → Grants → List A → ℕ → ℕ → ℕ → Run (Option (List A))
copy_no_signal grants a from count size s =
    if ltb (size_max / size) count
    then some (give_up eoverflow s, none)
    else let r = malloc_no_signal grants (count * size) s in copied r.0 r.1 (slice a from count)

-- `if (mat->field) nmat->field = gk_csr_CopyNoSignal(...)`.
unfoldable pub copy_if : {A : Type 0} → Grants → Option (List A) → ℕ → ℕ → ℕ → Run (Option (List A))
copy_if grants none from count size = give none
copy_if grants (some a) from count size = copy_no_signal grants a from count size

-- The fields of the rows of `gk_csr_t`.
pub record Rows (V : Type 0) : Type 0 where
  pub nrows : ℤ
  pub ncols : ℤ
  pub rowptr : Option (List ℤ)
  pub rowind : Option (List ℤ)
  pub rowval : Option (List V)
  pub rowids : Option (List ℤ)
  pub rlabels : Option (List ℤ)
  pub rmap : Option (List ℤ)
  pub rnorms : Option (List V)
  pub rsums : Option (List V)
  pub rsizes : Option (List V)
  pub rvols : Option (List V)
  pub rwgts : Option (List V)

module _ {V : Type 0} (grants : Grants) where
  -- The copies of `nrows` rows from `rstart` on, with `nnz` entries from `first` on.
  unfoldable pub copy_rows : Rows V → ℕ → ℕ → ℕ → ℕ → Run (Rows V)
  copy_rows m rstart nrows first nnz = do
    rowptr ← copy_if grants m.rowptr rstart (suc nrows) 8
    rowind ← copy_if grants m.rowind first nnz 4
    rowval ← copy_if grants m.rowval first nnz 4
    rowids ← copy_if grants m.rowids rstart nrows 4
    rlabels ← copy_if grants m.rlabels rstart nrows 4
    rmap ← copy_if grants m.rmap rstart nrows 4
    rnorms ← copy_if grants m.rnorms rstart nrows 4
    rsums ← copy_if grants m.rsums rstart nrows 4
    rsizes ← copy_if grants m.rsizes rstart nrows 4
    rvols ← copy_if grants m.rvols rstart nrows 4
    rwgts ← copy_if grants m.rwgts rstart nrows 4
    give (record {
      nrows = pos nrows;
      ncols = m.ncols;
      rowptr = rowptr;
      rowind = rowind;
      rowval = rowval;
      rowids = rowids;
      rlabels = rlabels;
      rmap = rmap;
      rnorms = rnorms;
      rsums = rsums;
      rsizes = rsizes;
      rvols = rvols;
      rwgts = rwgts;
    })

-- `a - b`.
abbrev pub minus : ℤ → ℤ → ℤ
minus (pos a) (pos b) = if leb b a then pos (a - b) else negsuc (b - a - 1)
minus (pos a) (negsuc b) = pos (a + b + 1)
minus (negsuc a) (pos b) = negsuc (a + b)
minus (negsuc a) (negsuc b) = if leb a b then pos (b - a) else negsuc (a - b - 1)

-- `for (i=n; i>=0; i--) ptr[i] -= first`, from `n` - 1 down.
unfoldable pub subtract_first : ℤ → ℕ → List ℤ → Option (List ℤ)
subtract_first first zero ptr = some ptr
subtract_first first (suc i) ptr = elim (get_elem? ptr i) [
  | none ↦ none
  | some p ↦ elim (write ptr i (minus p first)) [
    | none ↦ none
    | some ptr' ↦ subtract_first first i ptr'
  ]
]

-- `gk_csr_TransformError`: the signal, and the `errno` it leaves.
abbrev pub transform_error : {A : Type 0} → Bool → Errno → Alloc → Outcome Alloc A
transform_error allocation_failed enomem s = raised sigmem enomem s
transform_error allocation_failed eoverflow s = raised sigmem eoverflow s
transform_error allocation_failed unset s =
    raised (if allocation_failed then sigmem else sigerr) einval s
transform_error allocation_failed einval s =
    raised (if allocation_failed then sigmem else sigerr) einval s
transform_error allocation_failed enospc s =
    raised (if allocation_failed then sigmem else sigerr) enospc s

abbrev pub allocation_failure : {A : Type 0} → Alloc → Outcome Alloc A
allocation_failure s = transform_error true (or_enomem s.errno) s

-- A number that the checks have found not negative.
abbrev pub number : ℤ → Option ℕ
number (pos n) = some n
number (negsuc n) = none

-- A matrix of which only the rows matter.
pub record Full (V : Type 0) : Type 0 where
  pub rows : Rows V
  pub colptr : Option (List ℤ)
  pub colind : Option (List ℤ)
  pub colval : Option (List V)

-- `rstart < 0 || nrows < 0 || rstart > mat->nrows || nrows > mat->nrows - rstart`.
abbrev pub out_of_rows : ℤ → ℤ → ℤ → Bool
out_of_rows all rstart nrows =
    negative rstart || negative nrows || less all rstart || less (minus all rstart) nrows

module _ {V : Type 0} where
  -- What `gk_csr_ValidateStructure` looks at.
  abbrev pub shape : Full V → Matrix (List V)
  shape m = record {
    nrows = m.rows.nrows;
    ncols = m.rows.ncols;
    rowptr = m.rows.rowptr;
    rowind = m.rows.rowind;
    rowval = m.rows.rowval;
    colptr = m.colptr;
    colind = m.colind;
    colval = m.colval;
  }

  -- The last loop, on the matrix of the copies.
  unfoldable pub rebase : ℤ → ℕ → Rows V → Option (Rows V)
  rebase first nrows m = elim m.rowptr [
    | none ↦ none
    | some ptr ↦ elim (subtract_first first (suc nrows) ptr) [
      | none ↦ none
      | some ptr' ↦ some (record m { rowptr = some ptr' })
    ]
  ]

  -- `goto allocation_failure` if a copy failed, and the last loop otherwise.
  unfoldable pub conclude : ℤ → ℕ → Option (Alloc × Rows V) → Outcome Alloc (Rows V)
  conclude first nrows none = fault
  conclude first nrows (some r) =
      if r.0.gave_up
      then allocation_failure r.0
      else elim (rebase first nrows r.1) [ none ↦ fault | some m ↦ ok m r.0 ]

  -- `gk_csr_CreateNoSignal` and the copies; `sizeof(gk_csr_t)` is 184.
  unfoldable pub extract_rows : Grants → Rows V → List ℤ → ℕ → ℕ → Alloc → Outcome Alloc (Rows V)
  extract_rows grants m ptr rstart nrows s =
      let created = malloc_no_signal grants 184 s in
      if created.1
      then elim (get_elem? ptr rstart) [
        | none ↦ fault
        | some first ↦ elim (get_elem? ptr (rstart + nrows)) [
          | none ↦ fault
          | some last ↦ elim (number first) [
            | none ↦ fault
            | some from ↦ elim (number (minus last first)) [
              | none ↦ fault
              | some nnz ↦ conclude first nrows (copy_rows grants m rstart nrows from nnz created.0)
            ]
          ]
        ]
      ]
      else allocation_failure created.0

  -- The call once the matrix is valid; the guards leave no negative numbers.
  unfoldable pub extract_valid :
      Grants → Rows V → Option (List ℤ) → ℤ → ℤ → Alloc → Outcome Alloc (Rows V)
  extract_valid grants m none rstart nrows s = transform_error false einval s
  extract_valid grants m (some ptr) rstart nrows s =
      if out_of_rows m.nrows rstart nrows
      then transform_error false einval s
      else elim (number rstart) [
        | none ↦ fault
        | some a ↦ elim (number nrows) [ none ↦ fault | some b ↦ extract_rows grants m ptr a b s ]
      ]

  -- `gk_csr_ExtractSubmatrix`.
  unfoldable pub extract_submatrix : Grants → Full V → ℤ → ℤ → Alloc → Outcome Alloc (Rows V)
  extract_submatrix grants m rstart nrows s = elim (validate_structure (some (shape m))) [
    | passed n ↦ extract_valid grants m.rows m.rows.rowptr rstart nrows s
    | failed e ↦ transform_error false e s
    | stray ↦ fault
  ]
