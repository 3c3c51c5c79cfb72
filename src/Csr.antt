-- ===== src/Csr.antt =====
-- The checks that the routines of src/csr.c start with: gk_csr_ValidateSparseView,
-- gk_csr_ValidateStructure and gk_csr_ValidatePermutation. A value that the code tests for its sign is
-- an integer; a null pointer is `none`; an array of values counts only by its presence.
pub mod Verdict
pub mod Valid
pub mod Entries
pub mod SparseView
pub mod Structure
pub mod Reverse
pub mod Extract
pub mod Dup
pub mod Permutation
mod Tests
use gklib.Base.{
  ℕ, zero, suc, ◌+◌, ◌/◌, Bool, true, false, ◌&&◌, ◌||◌, not, Option, none, some, List, [], ◌∷◌,
  ltb, leb, ◌==◌, if◌then◌else◌, get_elem?, set, length, replicate,
}
use gklib.Base.Outcome.{Errno, einval, eoverflow}
use gklib.Base.Size.{size_max}

pub data ℤ : Type 0 where
  pos negsuc : ℕ → ℤ

-- How a check ends: the code returns 0 with an `errno`, or reads outside an array.
pub data Checked {ℓ} (A : Type ℓ) : Type ℓ where
  passed : A → Checked A
  failed : Errno → Checked A
  stray : Checked A

infixl 5 ◌>>=◌ ◌>>◌
abbrev pub ◌>>=◌ {ℓ κ} : {A : Type ℓ} {B : Type κ} → Checked A → (A → Checked B) → Checked B
passed a >>= f = f a
failed e >>= f = failed e
stray >>= f = stray

abbrev pub ◌>>◌ {ℓ κ} : {A : Type ℓ} {B : Type κ} → Checked A → Checked B → Checked B
c >> d = c >>= (λ _. d)

abbrev pub read : {A : Type 0} → List A → ℕ → Checked A
read [] i = stray
read (x ∷ a) zero = passed x
read (x ∷ a) (suc i) = read a i

-- `if (b) { errno = e; return 0; }`.
abbrev pub refuse_if : Bool → Errno → Checked (Unit {0})
refuse_if true e = failed e
refuse_if false e = passed tt

abbrev pub present : {A : Type 0} → Option A → Bool
present none = false
present (some a) = true

-- `for (i=i; i<i+n; i++)` over a check.
unfoldable pub check_each : ℕ → ℕ → (ℕ → Checked (Unit {0})) → Checked (Unit {0})
check_each zero i body = passed tt
check_each (suc n) i body = body i >> check_each n (suc i) body

-- `a < b`.
abbrev pub less : ℤ → ℤ → Bool
less (pos a) (pos b) = ltb a b
less (pos a) (negsuc b) = false
less (negsuc a) (pos b) = true
less (negsuc a) (negsuc b) = ltb b a

-- `a < 0`.
abbrev pub negative : ℤ → Bool
negative a = less a (pos 0)

-- `pointers[0] != 0`.
abbrev pub nonzero : ℤ → Bool
nonzero (pos zero) = false
nonzero (pos (suc a)) = true
nonzero (negsuc a) = true

-- A check of the elements of an array that may be null.
abbrev pub read_of : {A : Type 0} → Option (List A) → ℕ → Checked A
read_of none i = stray
read_of (some a) i = read a i

-- The body of the loop over the pointers.
unfoldable pub check_pointer : List ℤ → ℕ → Checked (Unit {0})
check_pointer ptr i = do
  p ← read ptr i
  if negative p then failed einval else read ptr (suc i) >>= λ q. refuse_if (less q p) einval

-- `i < 0 || i >= other_dimension`.
abbrev pub outside : ℕ → ℤ → Bool
outside other i = negative i || not (less i (pos other))

-- The body of the loop over the indices.
unfoldable pub check_index : ℕ → Option (List ℤ) → ℕ → Checked (Unit {0})
check_index other ind i = do k ← read_of ind i; refuse_if (outside other k) einval

-- `nnz < 0`, and the number otherwise.
abbrev pub not_negative : ℤ → Checked ℕ
not_negative (pos n) = passed n
not_negative (negsuc n) = failed einval

module _ {V : Type 0} where
  -- The last checks of `gk_csr_ValidateSparseView`, which has found `nnz` entries.
  unfoldable pub check_entries : ℕ → Option (List ℤ) → Option V → ℕ → Checked ℕ
  check_entries other ind val nnz = do
    refuse_if (ltb (size_max / 4) nnz || (present val && ltb (size_max / 4) nnz)) eoverflow
    refuse_if ((ltb 0 nnz || present val) && not (present ind)) einval
    check_each nnz 0 (check_index other ind)
    passed nnz

  -- `gk_csr_ValidateSparseView` after the null test; the result is `*r_nnz`.
  unfoldable pub check_view : ℕ → ℕ → List ℤ → Option (List ℤ) → Option V → Checked ℕ
  check_view dimension other ptr ind val = do
    first ← read ptr 0
    refuse_if (nonzero first) einval
    refuse_if (ltb (size_max / 8) (suc dimension)) eoverflow
    check_each dimension 0 (check_pointer ptr)
    last ← read ptr dimension
    nnz ← not_negative last
    check_entries other ind val nnz

  unfoldable pub validate_sparse_view :
      ℕ → ℕ → Option (List ℤ) → Option (List ℤ) → Option V → Checked ℕ
  validate_sparse_view dimension other none ind val = failed einval
  validate_sparse_view dimension other (some ptr) ind val = check_view dimension other ptr ind val

-- The fields of `gk_csr_t` that the checks look at.
pub record Matrix (V : Type 0) : Type 0 where
  pub nrows : ℤ
  pub ncols : ℤ
  pub rowptr : Option (List ℤ)
  pub rowind : Option (List ℤ)
  pub rowval : Option V
  pub colptr : Option (List ℤ)
  pub colind : Option (List ℤ)
  pub colval : Option V

module _ {V : Type 0} where
  -- A view without pointers has no arrays and no entries.
  unfoldable pub validate_side : ℕ → ℕ → Option (List ℤ) → Option (List ℤ) → Option V → Checked ℕ
  validate_side dimension other none ind val = passed 0
  validate_side dimension other (some ptr) ind val =
      validate_sparse_view dimension other (some ptr) ind val

  -- `gk_csr_ValidateStructure`; the result is `*r_rownnz` and `*r_colnnz`.
  unfoldable pub validate_structure : Option (Matrix V) → Checked (ℕ × ℕ)
  validate_structure none = failed einval
  validate_structure (some m) = do
    nrows ← not_negative m.nrows
    ncols ← not_negative m.ncols
    refuse_if (not (present m.rowptr) && (present m.rowind || present m.rowval)) einval
    refuse_if (not (present m.colptr) && (present m.colind || present m.colval)) einval
    rownnz ← validate_side nrows ncols m.rowptr m.rowind m.rowval
    colnnz ← validate_side ncols nrows m.colptr m.colind m.colval
    passed (rownnz, colnnz)

-- `seen[p] = 1`.
abbrev pub mark : List ℕ → ℕ → Checked (List ℕ)
mark seen p = if ltb p (length seen) then passed (set seen p 1) else stray

-- The test of one target, which is then marked.
unfoldable pub check_value : ℕ → ℤ → List ℕ → Checked (List ℕ)
check_value nrows (negsuc v) seen = failed einval
check_value nrows (pos v) seen =
    if leb nrows v
    then failed einval
    else read seen v >>= λ s. if ltb 0 s then failed einval else mark seen v

-- The body of the loop of `gk_csr_ValidatePermutation`.
unfoldable pub check_target : ℕ → List ℤ → ℕ → List ℕ → Checked (List ℕ)
check_target nrows permutation i seen = read permutation i >>= λ p. check_value nrows p seen

unfoldable pub check_targets : ℕ → List ℤ → ℕ → ℕ → List ℕ → Checked (List ℕ)
check_targets nrows permutation zero i seen = passed seen
check_targets nrows permutation (suc n) i seen = check_target nrows permutation i seen >>= λ seen'.
    check_targets nrows permutation n (suc i) seen'

-- `gk_csr_ValidatePermutation`; `seen` is cleared by the call.
unfoldable pub validate_permutation : List ℤ → ℕ → Checked (List ℕ)
validate_permutation permutation nrows = check_targets nrows permutation nrows 0 (replicate nrows 0)
