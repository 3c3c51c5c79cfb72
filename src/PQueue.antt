-- ===== src/PQueue.antt =====
-- The priority queue that include/gk_mkpqueue.h generates: a binary heap in an array with holes
-- instead of swaps, and a locator that gives each node's place. It is generic in the keys, as the
-- template is; `Option ℕ` is a node, place or return value with `none` for -1, and a call is `none`
-- if it leaves an array.
pub mod State
pub mod Up
pub mod Down
pub mod Refit
pub mod Forget
pub mod Insert
pub mod Delete
pub mod Top
pub mod Reset
pub mod Init
mod Tests
use gklib.Base.{
  ℕ, zero, suc, ◌+◌, ◌-◌, ◌*◌, ◌/◌, ◌%◌, ◌^◌, ◌≡◌, Bool, true, false, ◌&&◌, not, Option, none, some,
  List, [], ◌∷◌, ltb, ◌==◌, if◌then◌else◌, get_elem?, ◌⊎◌, inl, inr,
}
use gklib.Base.Outcome.{
  Signal, sigerr, sigmem, Errno, einval, enomem, eoverflow, enospc, unset, Outcome, ok, raised,
  fault, or_enomem,
}
use gklib.Base.Size.{ptrdiff_max}
use gklib.Base.Arrays.{◌>>=◌, write}

-- The template's `KEY_LT` and `KMAX`; `KEY_LT` is a strict order up to ties.
pub record KeyOrder (K : Type 0) : Type 0 where
  pub lt : K → K → Bool
  pub kmax : K
  pub lt_asym : (a b : K) → lt a b ≡ true → lt b a ≡ false
  pub le_trans : (a b c : K) → lt b a ≡ false → lt c b ≡ false → lt c a ≡ false

pub record Kv (K : Type 0) : Type 0 where
  pub key : K
  pub val : ℕ

-- The two arrays, which the loops write.
pub record Arrays (K : Type 0) : Type 0 where
  pub heap : List (Kv K)
  pub locator : List (Option ℕ)

pub record PQueue (K : Type 0) : Type 0 where
  pub nnodes : ℕ
  pub maxnodes : ℕ
  pub arrays : Arrays K

-- `(i-1)>>1` at a positive `i`.
abbrev pub parent : ℕ → ℕ
parent i = (i - 1) / 2

-- `--queue->nnodes` on a `size_t`.
abbrev pub pred_size : ℕ → ℕ
pred_size n = (n + 2 ^ 64 - 1) % 2 ^ 64

-- The loop of `gk_idxset`, with `n` places left to set from `i` on.
unfoldable pub set_all : {A : Type 0} → ℕ → ℕ → A → List A → Option (List A)
set_all zero i val x = some x
set_all (suc n) i val x = write x i val >>= (λ x'. set_all n (suc i) val x')

-- The signal of a `gk_sigtrap` that fails.
abbrev pub trap_signal : Errno → Signal
trap_signal enomem = sigmem
trap_signal eoverflow = sigmem
trap_signal einval = sigerr
trap_signal enospc = sigerr
trap_signal unset = sigerr

module _ {K : Type 0} ⦃o : KeyOrder K⦄ where
  -- `heap[i] = heap[j]; locator[heap[i].val] = i;`
  unfoldable pub move : Arrays K → ℕ → ℕ → Option (Arrays K)
  move s i j = do
    x ← get_elem? s.heap j
    heap' ← write s.heap i x
    locator' ← write s.locator x.val (some i)
    some (record { heap = heap'; locator = locator' })

  -- `heap[i].key = key; heap[i].val = node; locator[node] = i;`
  unfoldable pub place : Arrays K → ℕ → K → ℕ → Option (Arrays K)
  place s i key node = do
    heap' ← write s.heap i (record { key = key; val = node })
    locator' ← write s.locator node (some i)
    some (record { heap = heap'; locator = locator' })

  -- `locator[node] = -1;`
  unfoldable pub forget : Arrays K → ℕ → Option (Arrays K)
  forget s node = do locator' ← write s.locator node none; some (record s { locator = locator' })

  -- The loop "Filter-up": the place that it ends at, and the arrays.
  unfoldable pub filter_up : ℕ → K → ℕ → Arrays K → Option (ℕ × Arrays K)
  filter_up zero key i s = none
  filter_up (suc fuel) key i s =
      let rise = move s i (parent i) >>= (λ s'. filter_up fuel key (parent i) s') in
      elim (i == 0) [
        | true ↦ some (i, s)
        | false ↦
            get_elem? s.heap (parent i) >>= (λ x. if o.lt key x.key then rise else some (i, s))
      ]

  -- `KEY_LT(heap[j].key, key)`.
  unfoldable pub below : Arrays K → ℕ → K → Option Bool
  below s j key = do x ← get_elem? s.heap j; some (o.lt x.key key)

  -- `j+1 < nnodes && KEY_LT(heap[j+1].key, key)`.
  unfoldable pub right_below : Arrays K → ℕ → ℕ → K → Option Bool
  right_below s nnodes j key = if ltb (j + 1) nnodes then below s (j + 1) key else some false

  -- The child that the body of "Filter down" moves up; `none` is the `break`.
  unfoldable pub pick : Arrays K → ℕ → ℕ → K → Option (Option ℕ)
  pick s nnodes j key = do
    x ← get_elem? s.heap j
    if o.lt x.key key
        then right_below s nnodes j x.key >>= (λ right. some (some (if right then j + 1 else j)))
        else right_below s nnodes j key >>= (λ right. some (if right then some (j + 1) else none))

  -- The loop "Filter down".
  unfoldable pub filter_down : ℕ → K → ℕ → ℕ → Arrays K → Option (ℕ × Arrays K)
  filter_down zero key nnodes i s = none
  filter_down (suc fuel) key nnodes i s = elim (ltb (2 * i + 1) nnodes) [
    | false ↦ some (i, s)
    | true ↦ pick s nnodes (2 * i + 1) key >>= (λ child. elim child [
      | none ↦ some (i, s)
      | some j ↦ move s i j >>= (λ s'. filter_down fuel key nnodes j s')
    ])
  ]

  -- Either loop, by whether the key falls below the one that it replaces.
  unfoldable pub filter : K → K → ℕ → ℕ → Arrays K → Option (ℕ × Arrays K)
  filter key oldkey nnodes i s =
      if o.lt key oldkey then filter_up (i + 1) key i s else filter_down (nnodes + 1) key nnodes i s

  -- What a failed `Init` leaves.
  abbrev pub no_queue : PQueue K
  no_queue = record { nnodes = 0; maxnodes = 0; arrays = record { heap = []; locator = [] } }

  -- The end of `Init`, with the locator filled by `gk_idxset`.
  unfoldable pub init_filled :
      ℕ → List (Kv K) → Option (List (Option ℕ)) → Outcome (PQueue K) (Unit {0})
  init_filled maxnodes block none = fault
  init_filled maxnodes block (some filled) = ok tt (record {
    nnodes = 0;
    maxnodes = maxnodes;
    arrays = record { heap = block; locator = filled };
  })

  -- `Init` of a queue that is not NULL. Arguments are whether `gk_sigtrap` fails, with its `errno`,
  -- and what the allocations of the heap and of the locator answer: an error, which `gk_malloc` reports
  -- with SIGMEM, or a fresh array with its old contents.
  unfoldable pub init :
      ℕ
      → Option Errno
      → Errno ⊎ List (Kv K)
      → Errno ⊎ List (Option ℕ)
      → Outcome (PQueue K) (Unit {0})
  init maxnodes trap heap locator =
      if ltb ptrdiff_max maxnodes then raised sigmem eoverflow no_queue else elim trap [
        | some e ↦ raised (trap_signal e) e no_queue
        | none ↦ elim heap [
          | inl e ↦ raised sigmem (or_enomem e) no_queue
          | inr block ↦ elim locator [
            | inl e ↦ raised sigmem (or_enomem e) no_queue
            | inr fresh ↦ init_filled maxnodes block (set_all maxnodes 0 none fresh)
          ]
        ]
      ]

  -- `Insert`.
  unfoldable pub insert : PQueue K → ℕ → K → Option (PQueue K)
  insert q node key = do
    (i, s) ← filter_up (q.nnodes + 1) key q.nnodes q.arrays
    s' ← place s i key node
    some (record q { nnodes = q.nnodes + 1; arrays = s' })

  -- The part of `Delete` behind its `if`: the last entry takes the place `i`.
  unfoldable pub fill : ℕ → ℕ → Kv K → Arrays K → Option (Arrays K)
  fill nnodes i last s = do
    old ← get_elem? s.heap i
    (i', s') ← filter last.key old.key nnodes i s
    place s' i' last.key last.val

  -- `Delete`.
  unfoldable pub delete : PQueue K → ℕ → Option (PQueue K)
  delete q node = do
    found ← get_elem? q.arrays.locator node
    i ← found
    s ← forget q.arrays node
    let n = pred_size q.nnodes
    last ← (if n == 0 then some none else get_elem? s.heap n >>= (λ x. some (some x)))
    s' ← elim last [ none ↦ some s | some x ↦ if x.val == node then some s else fill n i x s ]
    some (record q { nnodes = n; arrays = s' })

  -- `Update`.
  unfoldable pub update : PQueue K → ℕ → K → Option (PQueue K)
  update q node newkey = do
    found ← get_elem? q.arrays.locator node
    i ← found
    old ← get_elem? q.arrays.heap i
    if not (o.lt newkey old.key) && not (o.lt old.key newkey) then some q else do
      (i', s) ← filter newkey old.key q.nnodes i q.arrays
      s' ← place s i' newkey node
      some (record q { arrays = s' })

  -- The part of `GetTop` behind its `if`.
  unfoldable pub refill : ℕ → Arrays K → Option (Arrays K)
  refill n s = do
    x ← get_elem? s.heap n
    (i, s') ← filter_down (n + 1) x.key n 0 s
    place s' i x.key x.val

  -- `GetTop`: the node, `none` for -1, and the queue that is left.
  unfoldable pub get_top : PQueue K → Option (Option ℕ × PQueue K)
  get_top q = if q.nnodes == 0 then some (none, q) else do
    let n = q.nnodes - 1
    top ← get_elem? q.arrays.heap 0
    s ← forget q.arrays top.val
    s' ← (if n == 0 then some s else refill n s)
    some (some top.val, record q { nnodes = n; arrays = s' })

  -- `Length`, `SeeTopVal`, `SeeTopKey` and `SeeKey`.
  unfoldable pub length : PQueue K → ℕ
  length q = q.nnodes

  unfoldable pub see_top_val : PQueue K → Option (Option ℕ)
  see_top_val q =
      if q.nnodes == 0 then some none else get_elem? q.arrays.heap 0 >>= (λ x. some (some x.val))

  unfoldable pub see_top_key : PQueue K → Option K
  see_top_key q =
      if q.nnodes == 0 then some o.kmax else get_elem? q.arrays.heap 0 >>= (λ x. some x.key)

  unfoldable pub see_key : PQueue K → ℕ → Option K
  see_key q node = do
    found ← get_elem? q.arrays.locator node
    i ← found
    x ← get_elem? q.arrays.heap i
    some x.key

  -- The loop of `Reset`, which counts `i` down.
  unfoldable pub reset_loop : ℕ → Arrays K → Option (Arrays K)
  reset_loop zero s = some s
  reset_loop (suc i) s = do x ← get_elem? s.heap i; s' ← forget s x.val; reset_loop i s'

  -- `Reset`.
  unfoldable pub reset : PQueue K → Option (PQueue K)
  reset q = do s ← reset_loop q.nnodes q.arrays; some (record q { nnodes = 0; arrays = s })
