-- ===== src/HTable/Resize.antt =====
-- `HTable_Resize` and `HTable_Create`.
use gklib.Base.{
  ℕ, ◌*◌, ◌≤◌, ◌<◌, ◌≡◌, refl, true, false, ◌&&◌, List, some, Option, none, arith, length, ◌==◌,
  leb, ◌⊎◌, inl, inr, Bool-cases,
}
use gklib.Base.Outcome.{Errno, Outcome, ok, raised, fault}
use gklib.Base.Size.{size_mul, size_mul-eq-some}
use gklib.HTable.{int_max, is_free, Ikv, HTable, Memory, is_valid, array_of, Call, is_pos}
use gklib.HTable.Ops.{
  clear, reinsert, publish, resize_nosignal, resize, reset, create, resized_then,
}
use gklib.HTable.Reach.{is_pair}
use gklib.HTable.Table.{IsTable, copies, is_valid-IsTable}
use gklib.HTable.Grow.{reinsert-Filled, tally-clear, clear-IsTable}

-- The allocator gives every block that is asked for, and takes every block back.
pub record Grants (m : Memory) : Type 0 where
  pub tables : m.malloc_table ≡ none
  pub blocks : (n : ℕ) → (b : List Ikv) × (m.malloc n ≡ inr b)
  pub frees : m.free ≡ none

-- `u` is a table of `n` slots with the pairs of `t`.
pub record Resized (t : HTable) (n : ℕ) (u : HTable) : Type 0 where
  pub table : IsTable u
  pub capacity : u.nelements ≡ n
  pub size : u.htsize ≡ t.htsize
  pub pairs : (q w : ℕ) → is_free q ≡ false → copies q w u ≡ copies q w t

bytes-fit : (n : ℕ) → n ≤ int_max → size_mul n 16 ≡ some (n * 16)
bytes-fit n h = size_mul-eq-some n 16 (omega arith)

module _ (m : Memory) {t : HTable} (table : IsTable t) (n : ℕ) (pos : 0 < n) (small : n ≤ int_max)
    (fits : t.htsize ≤ n) where
  resize_guard : (is_valid t && (is_pos n && leb t.htsize n)) ≡ true
  resize_guard = rw (is_valid-IsTable table) (ground arith)

  fresh : List Ikv → HTable
  fresh block = record { nelements = n; htsize = 0; harray = some (clear block) }

  refilled :
      (block : List Ikv)
      → length block ≡ n
      → (u : HTable) × (reinsert (array_of t) (fresh block) ≡ ok none u) × Resized t n u
  unfolding fresh
  refilled block e =
      let (u, run, f) =
        reinsert-Filled (array_of t) (fresh block) (clear-IsTable block n e pos small)
          (omega (arith, table.counted)) in
      (
        u,
        run,
        record {
          table = f.table;
          capacity = f.capacity;
          size = omega (arith, f.size, table.counted);
          pairs = λ q w l.
              omega (arith, f.pairs q w l, tally-clear (is_pair q w) block (λ e. ground arith));
        },
      )

  -- A resize that is allowed and is given its memory keeps the pairs in the new capacity.
  pub resize_nosignal-Resized :
      Grants m → (u : HTable) × (resize_nosignal m t n ≡ ok none u) × Resized t n u
  unfolding resize_nosignal fresh publish
  resize_nosignal-Resized g =
      let (block, given) = g.blocks (n * 16) in
      let (u, run, r) = refilled block (m.malloc_sized n block given) in
      (u, rw (resize_guard, bytes-fit n small, given, run) (ground (arith, r.size, g.frees)), r)

-- How a call on `t` may end: with a result and a table that satisfy `P`, or with an error that
-- leaves `t` exactly as it was; never outside the array.
abbrev pub Ends {ℓ} : {A : Type ℓ} → HTable → (A → HTable → Type 0) → Outcome HTable A → Type 0
Ends t P (ok a u) = P a u
Ends t P (raised s e u) = u ≡ t
Ends t P fault = ⊥

abbrev pub Published : HTable → ℕ → Option Errno → HTable → Type 0
Published t n none u = Resized t n u
Published t n (some e) u = u ≡ t

publish-Ends :
    (m : Memory) (t fresh : HTable) (n : ℕ)
    → Resized t n fresh
    → Ends t (Published t n) (publish m t fresh)
unfolding publish
publish-Ends m t fresh n r = elim (Bool-cases (fresh.htsize == t.htsize)) [
  | inl e ↦ rw e (released m.free)
  | inr d ↦ rw d refl
]
  where
    released :
        (o : Option Errno)
        → Ends t (Published t n) (elim o [ none ↦ ok none fresh | some e ↦ ok (some e) t ])
    released none = r
    released (some e) = refl

malloc-cases : (o : Errno ⊎ List Ikv) → ((e : Errno) × (o ≡ inl e)) ⊎ ((b : List Ikv) × (o ≡ inr b))
malloc-cases (inl e) = inl (e, refl)
malloc-cases (inr b) = inr (b, refl)

-- `HTable_ResizeNoSignal` on a well-formed table never leaves the array, whatever the allocator
-- answers, and publishes a new table only on success.
pub resize_nosignal-Ends :
    (m : Memory) {t : HTable} → IsTable t → (n : ℕ) → Ends t (Published t n) (resize_nosignal m t n)
unfolding resize_nosignal fresh
resize_nosignal-Ends m {t} table n =
    elim (Bool-cases (is_valid t && (is_pos n && leb t.htsize n))) [
      | inr bad ↦ rw bad refl
      | inl good ↦
          let valid = is_valid-IsTable table in
          let pos : 0 < n = ground arith in
          let small : n ≤ int_max = ground arith in
          let fits : t.htsize ≤ n = ground arith in
          rw (good, bytes-fit n small)
            (elim (malloc-cases (m.malloc (n * 16))) [
              | inl (e, none_left) ↦ rw none_left refl
              | inr (block, given) ↦
                  let (u, run, r) =
                    refilled m table n pos small fits block (m.malloc_sized n block given) in
                  rw (given, run) (publish-Ends m t u n r)
            ])
    ]

pub resized_then-Ends :
    (t : HTable) (n : ℕ) (P : HTable → Type 0) (after : HTable → Call (Unit {0}))
    (o : Call (Option Errno))
    → Ends t (Published t n) o
    → ((u : HTable) → Resized t n u → Ends t (λ _ w. P w) (after u))
    → Ends t (λ _ w. P w) (resized_then after o)
resized_then-Ends t n P after (ok none u) h k = k u h
resized_then-Ends t n P after (ok (some e) u) h k = h
resized_then-Ends t n P after (raised s e u) h k = h
resized_then-Ends t n P after fault h k = h

-- `HTable_Resize` of a well-formed table to any capacity, the negative and the too small ones
-- included, with an allocator that may fail at any point: the call stays inside the array, and
-- either every pair stands in a well-formed table of the new capacity, or the table is exactly as
-- it was.
pub resize-Ends :
    (m : Memory) {t : HTable} → IsTable t → (n : ℕ) → Ends t (λ _ u. Resized t n u) (resize m t n)
unfolding resize
resize-Ends m {t} table n =
    resized_then-Ends t n (Resized t n) (ok tt) (resize_nosignal m t n)
      (resize_nosignal-Ends m table n) (λ u r. r)

resize-ok :
    (m : Memory) (t u : HTable) (n : ℕ) → resize_nosignal m t n ≡ ok none u → resize m t n ≡ ok tt u
unfolding resize
resize-ok m t u n h = ground arith

-- `HTable_Resize` of a well-formed table to any positive capacity below 2^31 that holds the entries
-- succeeds, and keeps every pair and the well-formedness, where the allocator grants memory.
pub resize-Resized :
    (m : Memory) {t : HTable} (n : ℕ)
    → Grants m
    → IsTable t
    → 0 < n
    → n ≤ int_max
    → t.htsize ≤ n
    → (u : HTable) × (resize m t n ≡ ok tt u) × Resized t n u
resize-Resized m {t} n g table pos small fits =
    let (u, run, r) = resize_nosignal-Resized m table n pos small fits g in
    (u, resize-ok m t u n run, r)

create-run :
    (m : Memory) (n : ℕ) (block : List Ikv)
    → 0 < n
    → n ≤ int_max
    → m.malloc_table ≡ none
    → m.malloc (n * 16) ≡ inr block
    → length block ≡ n
    → create m n ≡ ok tt (some (record { nelements = n; htsize = 0; harray = some (clear block) }))
unfolding create reset
create-run m n block pos small tables given sized =
    let positive : is_pos n ≡ true = ground arith in
    rw (positive, bytes-fit n small, tables, given) (ground arith)

-- `HTable_Create` with a positive capacity gives an empty well-formed table of that capacity.
pub create-IsTable :
    (m : Memory) (n : ℕ)
    → Grants m
    → 0 < n
    → n ≤ int_max
    → (t : HTable) × (create m n ≡ ok tt (some t))
      × IsTable t
      × (t.nelements ≡ n)
      × ((q w : ℕ) → is_free q ≡ false → copies q w t ≡ 0)
create-IsTable m n g pos small =
    let (block, given) = g.blocks (n * 16) in
    let sized = m.malloc_sized n block given in
    (
      record { nelements = n; htsize = 0; harray = some (clear block) },
      create-run m n block pos small g.tables given sized,
      clear-IsTable block n sized pos small,
      refl,
      λ q w live. tally-clear (is_pair q w) block (λ e. ground arith),
    )
