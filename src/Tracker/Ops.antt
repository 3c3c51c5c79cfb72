-- ===== src/Tracker/Ops.antt =====
-- The calls of src/memory.c that report their errors, and those that open and close the tracker, with
-- the gkmcore functions of src/mcore.c that these use.
use gklib.Base.{
  ℕ, suc, ◌*◌, inl, inr, Bool, true, false, Option, none, some, List, [], ◌∷◌, get_elem?,
  if◌then◌else◌,
}
use gklib.Base.Outcome.{
  Signal, sigerr, sigmem, Errno, einval, enomem, eoverflow, unset, Outcome, ok, raised, fault,
}
use gklib.Mcore.{
  mopt_mark, mopt_heap, Pointer, null, on_heap, Mop, Mcore, Call, minus, can_add, same, del,
}
use gklib.Mcore.Create.{created}
use gklib.Tracker.{
  System, Tracked, ensure_capacity, add_reserved, can_realloc, track_block, at_least_one,
  move_block, untracked, malloc_nosignal, realloc_nosignal, free_nosignal,
}

-- The report of a refused call, by a signal that goes with its `errno`.
abbrev pub reported : {A : Type 0} → (Errno → Signal) → Tracked A → Outcome (Option Mcore) A
reported signal (ok (inr a) t) = ok a t
reported signal (ok (inl errno) t) = raised (signal errno) errno t
reported signal (raised s errno t) = raised s errno t
reported signal fault = fault

-- `gk_malloc`.
unfoldable pub malloc : System → Option Mcore → ℕ → Outcome (Option Mcore) Pointer
malloc y t n = reported (λ _. sigmem) (malloc_nosignal y t n)

abbrev pub realloc_signal : Errno → Signal
realloc_signal einval = sigerr
realloc_signal _ = sigmem

-- `gk_realloc`.
unfoldable pub realloc : System → Option Mcore → Pointer → ℕ → Outcome (Option Mcore) Pointer
realloc y t p n = reported realloc_signal (realloc_nosignal y t p n)

-- `gk_freePointer`.
unfoldable pub free_pointer : Option Mcore → Option Pointer → Outcome (Option Mcore) (Unit {0})
free_pointer t p = reported (λ _. sigerr) (free_nosignal t p)

-- `gk_free` of the pointers before `LTERM`: the first that cannot be freed ends it.
unfoldable pub free : Option Mcore → List (Option Pointer) → Outcome (Option Mcore) (Unit {0})
free t [] = ok tt t
free t (p ∷ ps) = elim (free_pointer t p) [
  | ok _ t' ↦ free t' ps
  | raised s errno t' ↦ raised s errno t'
  | fault ↦ fault
]

-- `gk_GetCurMemoryUsed` and `gk_GetMaxMemoryUsed`.
unfoldable pub cur_memory_used : Option Mcore → ℕ
cur_memory_used none = 0
cur_memory_used (some c) = c.cur_hallocs

unfoldable pub max_memory_used : Option Mcore → ℕ
max_memory_used none = 0
max_memory_used (some c) = c.max_hallocs

-- `gk_gkmcoreFindAny`: the depth below the top of a heap record of any frame.
unfoldable pub find_any : Pointer → ℕ → List Mop → Option ℕ
find_any p k [] = none
find_any p k (m ∷ ms) =
    let rest = find_any p (suc k) ms in
    elim m.kind [ mopt_heap ↦ if same m.ptr p then some k else rest | _ ↦ rest ]

-- `gk_realloc_mcore` of records that are not NULL, while `gkmcore` is not NULL.
unfoldable pub realloc_any : System → Mcore → Pointer → ℕ → Tracked Pointer
realloc_any y c p n = elim (find_any p 0 c.mops) [
  | none ↦ elim (y.realloc p n) [
    | none ↦ ok (inl enomem) (some c)
    | some a ↦ ok (inr (on_heap a)) (some c)
  ]
  | some k ↦ elim (get_elem? c.mops k) [
    | none ↦ fault
    | some m ↦
        if can_realloc c m.nbytes n
        then move_block c k m n (y.realloc p n)
        else ok (inl eoverflow) (some c)
  ]
]

-- `gk_realloc_mcore`, whose errors all report `SIGMEM`.
unfoldable pub realloc_mcore : System → Option Mcore → Pointer → ℕ → Outcome (Option Mcore) Pointer
realloc_mcore y none p n = reported (λ _. sigmem) (untracked (y.realloc p (at_least_one n)))
realloc_mcore y (some c) null n =
    reported (λ _. sigmem) (track_block y c (at_least_one n) (y.realloc null (at_least_one n)))
realloc_mcore y (some c) p n = reported (λ _. sigmem) (realloc_any y c p (at_least_one n))

-- `gk_gkmcoreCreate`.
unfoldable pub create : System → Option Mcore
create y = elim (y.malloc 112) [
  | none ↦ none
  | some _ ↦ elim (y.malloc (2048 * 24)) [ none ↦ none | some _ ↦ some (created 0) ]
]

-- `gk_gkmcoreAdd` behind its first two tests.
abbrev pub add_in_slot : Mop → Outcome Mcore (Option Errno) → Call (Unit {0})
add_in_slot m (ok none c) = add_reserved c m
add_in_slot m (ok (some errno) c) = raised sigmem errno c
add_in_slot m (raised s errno c) = raised s errno c
add_in_slot m fault = fault

unfoldable pub add_known : System → Mcore → Mop → Call (Unit {0})
add_known y c m =
    if can_add c m.kind m.nbytes
    then add_in_slot m (ensure_capacity y c)
    else raised sigmem eoverflow c

-- `gk_gkmcoreAdd`.
unfoldable pub add : System → Mcore → Mop → Call (Unit {0})
add y c m = elim m.kind [
  | mopt_mark ↦ add_known y c m
  | mopt_heap ↦ add_known y c m
  | _ ↦ raised sigmem unset c
]

-- `gk_gkmcorePush`.
unfoldable pub push : System → Mcore → Call (Unit {0})
push y c = add y c (record { kind = mopt_mark; nbytes = 0; ptr = null })

-- The loop of `gk_gkmcorePop`, while `gk_exit_on_error` is `exits`: the report of an unknown record
-- has no `return`, and its record is off the stack.
unfoldable pub pop_loop : Bool → List Mop → Mcore → Call (Unit {0})
pop_loop exits [] c = ok tt (record c { mops = [] })
pop_loop exits (m ∷ ms) c =
    let rest = pop_loop exits ms in
    let unknown = if exits then raised sigmem unset (record c { mops = ms }) else rest c in
    elim m.kind [
      | mopt_mark ↦ ok tt (record c { mops = ms })
      | mopt_heap ↦ rest (record c { cur_hallocs = minus c.cur_hallocs m.nbytes })
      | _ ↦ unknown
    ]

-- `gk_gkmcorePop`.
unfoldable pub pop : Bool → Mcore → Call (Unit {0})
pop exits c = pop_loop exits c.mops c

-- `gk_gkmcoreDel`, whose body is that of `gk_mcoreDel`.
unfoldable pub gkmcore_del : Mcore → Pointer → Call (Unit {0})
gkmcore_del c p = del c p

-- The end of `gk_malloc_init`, which returns 1 after the push.
abbrev pub opened : Call (Unit {0}) → Outcome (Option Mcore) Bool
opened (ok _ c) = ok true (some c)
opened (raised s errno c) = raised s errno (some c)
opened fault = fault

abbrev pub open_frame : System → Outcome Mcore (Option Errno) → Outcome (Option Mcore) Bool
open_frame y (ok none c) = opened (push y c)
open_frame y (ok (some _) c) = ok false (some c)
open_frame y (raised s errno c) = raised s errno (some c)
open_frame y fault = fault

abbrev pub open_tracker : System → Option Mcore → Outcome (Option Mcore) Bool
open_tracker y none = ok false none
open_tracker y (some c) = open_frame y (ensure_capacity y c)

-- `gk_malloc_init`.
unfoldable pub malloc_init : System → Option Mcore → Outcome (Option Mcore) Bool
malloc_init y none = open_tracker y (create y)
malloc_init y (some c) = open_tracker y (some c)

-- The end of `gk_malloc_cleanup`: an empty tracker is destroyed.
abbrev pub close_frame : Call (Unit {0}) → Outcome (Option Mcore) (Unit {0})
close_frame (ok _ c) = elim c.mops [ [] ↦ ok tt none | _ ∷ _ ↦ ok tt (some c) ]
close_frame (raised s errno c) = raised s errno (some c)
close_frame fault = fault

-- `gk_malloc_cleanup`.
unfoldable pub malloc_cleanup : Bool → Option Mcore → Outcome (Option Mcore) (Unit {0})
malloc_cleanup exits none = ok tt none
malloc_cleanup exits (some c) = close_frame (pop exits c)
