-- ===== src/Sparse.antt =====
-- Index structures of sparse matrices: MAKECSR and SHIFTCSR of include/gk_macros.h, gk_?array2csr of
-- include/gk_mkutils.h, and gk_csr_CreateIndex of src/csr.c. Pointers and indices that are not
-- negative are their numbers; a call is `none` if it leaves an array.
pub mod Loops
pub mod Segments
pub mod Counts
pub mod Pointers
pub mod Starts
pub mod Place
pub mod Views
pub mod Index
pub mod Passes
pub mod Inverse
pub mod Reverse
mod Tests
use gklib.Base.{
  ℕ, zero, suc, ◌+◌, ◌-◌, ◌*◌, Bool, true, false, Option, none, some, List, [], ◌∷◌, ltb,
  if◌then◌else◌, get_elem?, replicate,
}
use gklib.Base.Arrays.{◌>>=◌, write}

-- `for (k=i; k<i+n; k++)`.
unfoldable pub for_range : {S : Type 0} → ℕ → ℕ → (ℕ → S → Option S) → S → Option S
for_range zero i body s = some s
for_range (suc n) i body s = body i s >>= (λ s'. for_range n (suc i) body s')

-- `for (i=0; i<nf; i++) for (j=fptr[i]; j<fptr[i+1]; j++)`.
unfoldable pub for_entries : {S : Type 0} → ℕ → List ℕ → (ℕ → ℕ → S → Option S) → S → Option S
for_entries nf fptr body s =
    for_range nf 0
      (λ i s'. do
        lo ← get_elem? fptr i
        hi ← get_elem? fptr (suc i)
        for_range (hi - lo) lo (body i) s')
      s

-- `for (i=n; i>0; i--) a[i] = a[i-1];`
unfoldable pub shift_right : ℕ → List ℕ → Option (List ℕ)
shift_right zero a = some a
shift_right (suc i) a = do y ← get_elem? a i; a' ← write a (suc i) y; shift_right i a'

-- `SHIFTCSR`.
unfoldable pub shift_csr : ℕ → List ℕ → Option (List ℕ)
shift_csr n a = do a' ← shift_right n a; write a' 0 0

-- The body of the first loop of `MAKECSR`, `a[i] += a[i-1]`.
unfoldable pub add_previous : ℕ → List ℕ → Option (List ℕ)
add_previous i a = do x ← get_elem? a i; y ← get_elem? a (i - 1); write a i (x + y)

-- `MAKECSR`.
unfoldable pub make_csr : ℕ → List ℕ → Option (List ℕ)
make_csr n a = do a' ← for_range (n - 1) 1 add_previous a; shift_csr n a'

-- `ptr[k]++`.
unfoldable pub bump : ℕ → List ℕ → Option (List ℕ)
bump k ptr = do x ← get_elem? ptr k; write ptr k (suc x)

-- `ind[ptr[k]++] = a`.
unfoldable pub put : {A : Type 0} → ℕ → A → List ℕ × List A → Option (List ℕ × List A)
put k a (ptr, ind) = do
  p ← get_elem? ptr k
  ind' ← write ind p a
  ptr' ← write ptr k (suc p)
  some (ptr', ind')

-- `gk_?array2csr`.
unfoldable pub array2csr : ℕ → ℕ → List ℕ → List ℕ → List ℕ → Option (List ℕ × List ℕ)
array2csr n range array ptr ind = do
  cleared ← for_range (suc range) 0 (λ i p. write p i 0) ptr
  counted ← for_range n 0 (λ i p. get_elem? array i >>= (λ k. bump k p)) cleared
  starts ← make_csr range counted
  (ends, ind') ← for_range n 0 (λ i s. get_elem? array i >>= (λ k. put k i s)) (starts, ind)
  ptr' ← shift_csr range ends
  some (ptr', ind')

-- One orientation of a matrix: the arrays that `gk_csr_CreateIndex` calls ptr, ind and val.
pub record View (V : Type 0) : Type 0 where
  pub ptr : List ℕ
  pub ind : List ℕ
  pub val : Option (List V)

module _ {V : Type 0} where
  -- `rind[rptr[k]] = i; rval[rptr[k]++] = v`.
  unfoldable pub put_both :
      ℕ → ℕ → V → List ℕ × (List ℕ × List V) → Option (List ℕ × (List ℕ × List V))
  put_both k i v (ptr, arrays) = do
    p ← get_elem? ptr k
    ind' ← write arrays.0 p i
    val' ← write arrays.1 p v
    ptr' ← write ptr k (suc p)
    some (ptr', (ind', val'))

  -- The loops that place the numbers of the forward rows.
  unfoldable pub place_majors : ℕ → View V → List ℕ → List ℕ → Option (List ℕ × List ℕ)
  place_majors nf f rptr rind =
      for_entries nf f.ptr (λ i j s. get_elem? f.ind j >>= (λ k. put k i s)) (rptr, rind)

  -- The loops that place the values.
  unfoldable pub place_values : ℕ → View V → List V → List ℕ → List V → Option (List ℕ × List V)
  place_values nf f fval rptr rval =
      for_entries nf f.ptr (λ i j s. do k ← get_elem? f.ind j; v ← get_elem? fval j; put k v s)
        (rptr, rval)

  -- The loops that place both.
  unfoldable pub place_both :
      ℕ → View V → List V → List ℕ → List ℕ → List V → Option (List ℕ × (List ℕ × List V))
  place_both nf f fval rptr rind rval =
      for_entries nf f.ptr
        (λ i j s. do k ← get_elem? f.ind j; v ← get_elem? fval j; put_both k i v s)
        (rptr, (rind, rval))

  -- The branch of `gk_csr_CreateIndex` for many entries: two passes.
  unfoldable pub in_two_passes : ℕ → ℕ → View V → List ℕ → List ℕ → List V → Option (View V)
  in_two_passes nf nr f rptr rind rval = do
    (ends, rind') ← place_majors nf f rptr rind
    rptr' ← shift_csr nr ends
    elim f.val [
      | none ↦ some (record { ptr = rptr'; ind = rind'; val = none })
      | some fval ↦ do
        (ends', rval') ← place_values nf f fval rptr' rval
        rptr'' ← shift_csr nr ends'
        some (record { ptr = rptr''; ind = rind'; val = some rval' })
    ]

  -- The branch for few entries: one pass.
  unfoldable pub in_one_pass : ℕ → ℕ → View V → List ℕ → List ℕ → List V → Option (View V)
  in_one_pass nf nr f rptr rind rval = elim f.val [
    | none ↦ do
      (ends, rind') ← place_majors nf f rptr rind
      rptr' ← shift_csr nr ends
      some (record { ptr = rptr'; ind = rind'; val = none })
    | some fval ↦ do
      (ends, arrays) ← place_both nf f fval rptr rind rval
      rptr' ← shift_csr nr ends
      some (record { ptr = rptr'; ind = arrays.0; val = some arrays.1 })
  ]

  -- The loops of `gk_csr_CreateIndex`: from a view of `nf` rows the one of `nr` columns. `rind` and
  -- `rval` are the fresh arrays with their old contents.
  unfoldable pub create_index : ℕ → ℕ → View V → List ℕ → List V → Option (View V)
  create_index nf nr f rind rval = do
    counted ←
        for_entries nf f.ptr (λ i j p. get_elem? f.ind j >>= (λ k. bump k p)) (replicate (suc nr) 0)
    rptr ← make_csr nr counted
    total ← get_elem? rptr nr
    if ltb (6 * nr) total
        then in_two_passes nf nr f rptr rind rval
        else in_one_pass nf nr f rptr rind rval
