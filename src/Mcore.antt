-- ===== src/Mcore.antt =====
-- The workspace allocator of src/mcore.c: blocks come off a core buffer or, where it has no room,
-- from the heap; a stack of records says what to give back at the next pop. The array `mops` up to
-- `cmop` is a list with the top first, so `cmop` is its length; the entries from `cmop` on are never
-- read. The calls of src/memory.c are a parameter.
pub mod State
pub mod Create
pub mod Malloc
pub mod Frames
pub mod Bracket
pub mod Session
mod Tests
use gklib.Base.{
  ℕ, zero, suc, ◌+◌, ◌-◌, ◌*◌, ◌%◌, ◌^◌, ◌⊎◌, inl, inr, Bool, true, false, ◌&&◌, Option, none, some,
  List, [], ◌∷◌, length, set, drop, ltb, leb, ◌==◌, if◌then◌else◌,
}
use gklib.Base.Outcome.{
  Signal, sigmem, halt, Errno, eoverflow, unset, Outcome, ok, raised, fault, and_then,
}
use gklib.Base.Size.{size_max, ptrdiff_max, size_add, size_mul}

-- The `type` of a record; `mopt_other` is any number that is none of the three.
pub data MopType : Type 0 where
  mopt_mark mopt_core mopt_heap mopt_other : MopType

-- A pointer: NULL, an offset into the core buffer, or a block of the heap.
pub data Pointer : Type 0 where
  null : Pointer
  in_core on_heap : ℕ → Pointer

pub record Mop : Type 0 where
  pub kind : MopType
  pub nbytes : ℕ
  pub ptr : Pointer

pub record Mcore : Type 0 where
  pub coresize : ℕ
  pub corecpos : ℕ
  pub nmops : ℕ
  pub mops : List Mop
  pub num_callocs : ℕ
  pub num_hallocs : ℕ
  pub size_callocs : ℕ
  pub size_hallocs : ℕ
  pub cur_callocs : ℕ
  pub cur_hallocs : ℕ
  pub max_callocs : ℕ
  pub max_hallocs : ℕ

-- What src/memory.c answers: `gk_malloc_nosignal` (whether it fails), `gk_realloc_mcore`,
-- `gk_malloc` and `gk_free`, the last three with the error that they report.
pub record Heap : Type 0 where
  pub reserve : ℕ → Option Errno
  pub grow : ℕ → Option (Signal × Errno)
  pub malloc : ℕ → (Signal × Errno) ⊎ ℕ
  pub free : Pointer → Option (Signal × Errno)

abbrev pub Call : Type 0 → Type 0
Call A = Outcome Mcore A

-- Addition and subtraction on a `size_t`.
abbrev pub plus : ℕ → ℕ → ℕ
plus a b = (a + b) % 2 ^ 64

abbrev pub minus : ℕ → ℕ → ℕ
minus a b = (a + 2 ^ 64 - b) % 2 ^ 64

abbrev pub maximum : ℕ → ℕ → ℕ
maximum a b = if ltb a b then b else a

-- `gk_mcoreCanAdd`.
unfoldable pub can_add : Mcore → MopType → ℕ → Bool
can_add c kind n = leb n ptrdiff_max && elim kind [
  | mopt_mark ↦ true
  | mopt_core ↦
      ltb c.num_callocs size_max
      && (leb c.size_callocs (size_max - n) && leb c.cur_callocs (size_max - n))
  | _ ↦
      ltb c.num_hallocs size_max
      && (leb c.size_hallocs (size_max - n) && leb c.cur_hallocs (size_max - n))
]

-- The capacity that follows `nmops`.
unfoldable pub next_nmops : ℕ → Option ℕ
next_nmops n = if n == 0 then some 2048 else size_add n n

-- `gk_mcoreEnsureCapacity`; a record has 24 bytes.
unfoldable pub ensure_capacity : Heap → Mcore → Call (Unit {0})
ensure_capacity h c = if ltb (length c.mops) c.nmops then ok tt c else elim (next_nmops c.nmops) [
  | none ↦ raised sigmem eoverflow c
  | some n ↦ elim (size_mul n 24) [
    | none ↦ raised sigmem eoverflow c
    | some bytes ↦ elim (h.grow bytes) [
      | some (signal, errno) ↦ raised signal errno c
      | none ↦ ok tt (record c { nmops = n })
    ]
  ]
]

-- The statistics of `gk_mcoreAddReserved`.
abbrev pub count : MopType → ℕ → Mcore → Mcore
count mopt_core n c = record c {
  num_callocs = plus c.num_callocs 1;
  size_callocs = plus c.size_callocs n;
  cur_callocs = plus c.cur_callocs n;
  max_callocs = maximum c.max_callocs (plus c.cur_callocs n);
}
count mopt_heap n c = record c {
  num_hallocs = plus c.num_hallocs 1;
  size_hallocs = plus c.size_hallocs n;
  cur_hallocs = plus c.cur_hallocs n;
  max_hallocs = maximum c.max_hallocs (plus c.cur_hallocs n);
}
count mopt_mark n c = c
count mopt_other n c = c

-- `gk_mcoreAddReserved`.
unfoldable pub add_reserved : Mcore → Mop → Call (Unit {0})
add_reserved c m =
    if ltb (length c.mops) c.nmops
    then ok tt (count m.kind m.nbytes (record c { mops = m ∷ c.mops }))
    else fault

-- `gk_mcoreAdd`.
unfoldable pub add : Heap → Mcore → Mop → Call (Unit {0})
add h c m = elim m.kind [
  | mopt_other ↦ raised sigmem unset c
  | _ ↦
      if can_add c m.kind m.nbytes
      then and_then (ensure_capacity h c) (λ _ c'. add_reserved c' m)
      else raised sigmem eoverflow c
]

-- `gk_mcorePush`.
unfoldable pub push : Heap → Mcore → Call (Unit {0})
push h c = add h c (record { kind = mopt_mark; nbytes = 0; ptr = null })

-- `gk_mcoreCreate`: an mcore has 112 bytes. The blocks that it frees on an error are its own.
unfoldable pub create : Heap → ℕ → Outcome (Option Mcore) (Unit {0})
create h coresize = elim (h.reserve 112) [
  | some e ↦ raised sigmem e none
  | none ↦ elim (if coresize == 0 then none else h.reserve coresize) [
    | some e ↦ raised sigmem e none
    | none ↦ elim (h.reserve (2048 * 24)) [
      | some e ↦ raised sigmem e none
      | none ↦ ok tt (
          some record {
            coresize = coresize;
            corecpos = 0;
            nmops = 2048;
            mops = [];
            num_callocs = 0;
            num_hallocs = 0;
            size_callocs = 0;
            size_hallocs = 0;
            cur_callocs = 0;
            cur_hallocs = 0;
            max_callocs = 0;
            max_hallocs = 0;
          })
    ]
  ]
]

-- The bytes that `gk_mcoreMalloc` adds to a request.
unfoldable pub padding : ℕ → ℕ
padding n = if n % 8 == 0 then 0 else 8 - n % 8

-- Where `gk_mcoreMalloc` takes a padded request from.
unfoldable pub source_of : Mcore → ℕ → MopType
source_of c n =
    if leb c.corecpos c.coresize && ltb n (c.coresize - c.corecpos) then mopt_core else mopt_heap

-- What `gk_mcoreMalloc` does with the answer of `gk_malloc`.
abbrev pub take_block : ℕ → Mcore → (Signal × Errno) ⊎ ℕ → Call Pointer
take_block n c (inl (signal, errno)) = raised signal errno c
take_block n c (inr a) =
    and_then (add_reserved c (record { kind = mopt_heap; nbytes = n; ptr = on_heap a }))
      (λ _ c'. ok (on_heap a) c')

-- The end of `gk_mcoreMalloc`.
abbrev pub serve : Heap → MopType → ℕ → Mcore → Call Pointer
serve h mopt_core n c =
    and_then
      (add_reserved (record c { corecpos = plus c.corecpos n })
        (record { kind = mopt_core; nbytes = n; ptr = in_core c.corecpos }))
      (λ _ c'. ok (in_core c.corecpos) c')
serve h _ n c = take_block n c (h.malloc n)

-- `gk_mcoreMalloc` from its test on, at the padded size.
unfoldable pub malloc_padded : Heap → Mcore → ℕ → Call Pointer
malloc_padded h c n =
    if can_add c (source_of c n) n
    then and_then (ensure_capacity h c) (λ _ c'. serve h (source_of c n) n c')
    else raised sigmem eoverflow c

-- `gk_mcoreMalloc`.
unfoldable pub malloc : Heap → Mcore → ℕ → Call Pointer
malloc h c n = elim (size_add n (padding n)) [
  | none ↦ raised sigmem eoverflow c
  | some bytes ↦ malloc_padded h c bytes
]

-- The loop of `gk_mcorePop` over what `mops` still holds.
unfoldable pub pop_loop : Heap → List Mop → Mcore → Call (Unit {0})
pop_loop h [] c = ok tt (record c { mops = [] })
pop_loop h (m ∷ ms) c =
    let rest = pop_loop h ms in
    elim m.kind [
      | mopt_mark ↦ ok tt (record c { mops = ms })
      | mopt_core ↦
          if ltb c.corecpos m.nbytes
          then raised halt unset (record c { mops = m ∷ ms })
          else rest (record c {
            corecpos = minus c.corecpos m.nbytes;
            cur_callocs = minus c.cur_callocs m.nbytes;
          })
      | mopt_heap ↦ elim (h.free m.ptr) [
        | some (signal, errno) ↦ raised signal errno (record c { mops = m ∷ ms })
        | none ↦ rest (record c { cur_hallocs = minus c.cur_hallocs m.nbytes })
      ]
      | mopt_other ↦ raised sigmem unset (record c { mops = m ∷ ms })
    ]

-- `gk_mcorePop`.
unfoldable pub pop : Heap → Mcore → Call (Unit {0})
pop h c = pop_loop h c.mops c

abbrev pub same : Pointer → Pointer → Bool
same null null = true
same (in_core a) (in_core b) = a == b
same (on_heap a) (on_heap b) = a == b
same _ _ = false

-- The loop of `gk_mcoreDel`: the depth of the record below the top, and the record; `none` is one of
-- its three error reports.
unfoldable pub seek : Pointer → ℕ → List Mop → Option (ℕ × Mop)
seek p k [] = none
seek p k (m ∷ ms) =
    let rest = seek p (suc k) ms in
    elim m.kind [
      | mopt_mark ↦ none
      | mopt_heap ↦ if same m.ptr p then some (k, m) else rest
      | _ ↦ if same m.ptr p then none else rest
    ]

-- `mcore->mops[i] = mcore->mops[--mcore->cmop]`, for the record at a depth below the top.
abbrev pub take_out : ℕ → List Mop → List Mop
take_out k [] = []
take_out k (m ∷ ms) = drop 1 (set (m ∷ ms) k m)

-- `gk_mcoreDel`.
unfoldable pub del : Mcore → Pointer → Call (Unit {0})
del c p = elim (seek p 0 c.mops) [
  | none ↦ raised sigmem unset c
  | some (k, m) ↦
      ok tt (record c { cur_hallocs = minus c.cur_hallocs m.nbytes; mops = take_out k c.mops })
]
