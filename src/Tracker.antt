-- ===== src/Tracker.antt =====
-- The tracker of heap allocations in src/memory.c, with the gkmcore functions of src/mcore.c and
-- src/memory_internal.h: a stack of the same records as an mcore's, with marks and heap blocks only.
-- The state is the variable `gkmcore`, `none` while it is NULL; the C library's allocator is a
-- parameter.
pub mod Bags
pub mod State
pub mod Alloc
pub mod Ops
pub mod Close
mod Tests
use gklib.Base.{
  ℕ, zero, suc, ◌+◌, ◌-◌, ◌*◌, ◌%◌, ◌^◌, ◌⊎◌, inl, inr, Bool, true, false, ◌&&◌, ◌||◌, Option, none,
  some, List, [], ◌∷◌, length, get_elem?, set, ltb, leb, ◌==◌, if◌then◌else◌,
}
use gklib.Base.Outcome.{
  sigmem, Errno, einval, enomem, eoverflow, unset, Outcome, ok, raised, fault, and_then,
}
use gklib.Base.Size.{size_max, ptrdiff_max, size_mul}
use gklib.Mcore.{
  MopType, mopt_mark, mopt_core, mopt_heap, mopt_other, Pointer, null, on_heap, Mop, Mcore, Call,
  plus, minus, maximum, can_add, next_nmops, count, same, take_out,
}

-- The C library: whether `realloc` of the records fails, with its `errno`, and the block that
-- `malloc`, and `realloc` of a block, give.
pub record System : Type 0 where
  pub grow : ℕ → Option Errno
  pub malloc : ℕ → Option ℕ
  pub realloc : Pointer → ℕ → Option ℕ

-- A call on the variable: NULL or 0 with its `errno`, or the value.
abbrev pub Tracked : Type 0 → Type 0
Tracked A = Outcome (Option Mcore) (Errno ⊎ A)

-- `gk_gkmcoreEnsureCapacity`.
unfoldable pub ensure_capacity : System → Mcore → Outcome Mcore (Option Errno)
ensure_capacity y c = if ltb (length c.mops) c.nmops then ok none c else elim (next_nmops c.nmops) [
  | none ↦ ok (some eoverflow) c
  | some n ↦ elim (size_mul n 24) [
    | none ↦ ok (some eoverflow) c
    | some bytes ↦ elim (y.grow bytes) [
      | some errno ↦ ok (some errno) c
      | none ↦ ok none (record c { nmops = n })
    ]
  ]
]

-- The statistics of `gk_gkmcoreAddReserved`.
abbrev pub count_heap : MopType → ℕ → Mcore → Mcore
count_heap mopt_heap n c = count mopt_heap n c
count_heap mopt_mark n c = c
count_heap mopt_core n c = c
count_heap mopt_other n c = c

-- `gk_gkmcoreAddReserved`.
unfoldable pub add_reserved : Mcore → Mop → Call (Unit {0})
add_reserved c m =
    if ltb (length c.mops) c.nmops
    then ok tt (count_heap m.kind m.nbytes (record c { mops = m ∷ c.mops }))
    else fault

-- `gk_gkmcoreFindQuiet`: the depth below the top of a heap record above the last mark.
unfoldable pub find_quiet : Pointer → ℕ → List Mop → Option ℕ
find_quiet p k [] = none
find_quiet p k (m ∷ ms) =
    let rest = find_quiet p (suc k) ms in
    elim m.kind [ mopt_mark ↦ none | mopt_heap ↦ if same m.ptr p then some k else rest | _ ↦ rest ]

-- `gk_gkmcoreCanAdd`.
unfoldable pub can_track : Mcore → ℕ → Bool
can_track c n =
    leb n ptrdiff_max
    && (ltb c.num_hallocs size_max
        && (leb c.size_hallocs (size_max - n) && leb c.cur_hallocs (size_max - n)))

-- `gk_gkmcoreCanRealloc` for a record of `old` bytes.
unfoldable pub can_realloc : Mcore → ℕ → ℕ → Bool
can_realloc c old n =
    leb n ptrdiff_max
    && (ltb c.num_hallocs size_max
        && (leb c.size_hallocs (size_max - n)
            && (leb n old || leb c.cur_hallocs (size_max - (n - old)))))

-- `gk_gkmcoreUpdateRealloc` at a depth below the top, where `m` stands.
abbrev pub update_realloc : Mcore → ℕ → Mop → ℕ → Pointer → Mcore
update_realloc c k m n p =
    let current = plus (minus c.cur_hallocs m.nbytes) n in
    record c {
      mops = set c.mops k (record m { nbytes = n; ptr = p });
      num_hallocs = plus c.num_hallocs 1;
      size_hallocs = plus c.size_hallocs n;
      cur_hallocs = current;
      max_hallocs = maximum c.max_hallocs current;
    }

-- `nbytes++` for a request of no bytes.
abbrev pub at_least_one : ℕ → ℕ
at_least_one n = if n == 0 then 1 else n

-- The end of an allocation, behind `gk_gkmcoreAddReserved`.
abbrev pub give_block : ℕ → Call (Unit {0}) → Tracked Pointer
give_block a (ok _ c) = ok (inr (on_heap a)) (some c)
give_block a (raised s e c) = raised s e (some c)
give_block a fault = fault

-- The record of a block in the slot that was reserved.
abbrev pub record_block : Mcore → ℕ → Option ℕ → Tracked Pointer
record_block c n none = ok (inl enomem) (some c)
record_block c n (some a) =
    give_block a (add_reserved c (record { kind = mopt_heap; nbytes = n; ptr = on_heap a }))

-- What follows a reservation for a block that the system then gives, or refuses.
abbrev pub with_slot : ℕ → Option ℕ → Outcome Mcore (Option Errno) → Tracked Pointer
with_slot n block (ok (some errno) c) = ok (inl errno) (some c)
with_slot n block (ok none c) = record_block c n block
with_slot n block (raised s e c) = raised s e (some c)
with_slot n block fault = fault

-- A new block of a size that is not 0, as both `gk_malloc_nosignal` and `gk_realloc_nosignal` of
-- NULL record it.
unfoldable pub track_block : System → Mcore → ℕ → Option ℕ → Tracked Pointer
track_block y c n block =
    if can_track c n then with_slot n block (ensure_capacity y c) else ok (inl eoverflow) (some c)

-- A block that no tracker records.
abbrev pub untracked : Option ℕ → Tracked Pointer
untracked none = ok (inl enomem) none
untracked (some a) = ok (inr (on_heap a)) none

-- `gk_malloc_nosignal`.
unfoldable pub malloc_nosignal : System → Option Mcore → ℕ → Tracked Pointer
malloc_nosignal y none n = untracked (y.malloc (at_least_one n))
malloc_nosignal y (some c) n = track_block y c (at_least_one n) (y.malloc (at_least_one n))

-- The end of `gk_realloc_nosignal` for a tracked block.
abbrev pub move_block : Mcore → ℕ → Mop → ℕ → Option ℕ → Tracked Pointer
move_block c k m n none = ok (inl enomem) (some c)
move_block c k m n (some a) = ok (inr (on_heap a)) (some (update_realloc c k m n (on_heap a)))

-- `gk_realloc_nosignal` of a block that is not NULL.
unfoldable pub realloc_found : System → Mcore → Pointer → ℕ → Tracked Pointer
realloc_found y c p n = elim (find_quiet p 0 c.mops) [
  | none ↦ ok (inl einval) (some c)
  | some k ↦ elim (get_elem? c.mops k) [
    | none ↦ fault
    | some m ↦
        if can_realloc c m.nbytes n
        then move_block c k m n (y.realloc p n)
        else ok (inl eoverflow) (some c)
  ]
]

-- `gk_realloc_nosignal`.
unfoldable pub realloc_nosignal : System → Option Mcore → Pointer → ℕ → Tracked Pointer
realloc_nosignal y none p n = untracked (y.realloc p (at_least_one n))
realloc_nosignal y (some c) null n =
    track_block y c (at_least_one n) (y.realloc null (at_least_one n))
realloc_nosignal y (some c) p n = realloc_found y c p (at_least_one n)

-- `gk_free_nosignal` of a pointer that is not NULL, on a tracker.
unfoldable pub free_found : Mcore → Pointer → Tracked (Unit {0})
free_found c p = elim (find_quiet p 0 c.mops) [
  | none ↦ ok (inl einval) (some c)
  | some k ↦ elim (get_elem? c.mops k) [
    | none ↦ fault
    | some m ↦
        ok (inr tt)
          (some (record c { cur_hallocs = minus c.cur_hallocs m.nbytes; mops = take_out k c.mops }))
  ]
]

-- `gk_free_nosignal`; the argument is `none` where `r_ptr` is NULL.
unfoldable pub free_nosignal : Option Mcore → Option Pointer → Tracked (Unit {0})
free_nosignal t none = ok (inl einval) t
free_nosignal t (some null) = ok (inr tt) t
free_nosignal none (some p) = ok (inr tt) none
free_nosignal (some c) (some p) = free_found c p
