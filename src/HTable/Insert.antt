-- ===== src/HTable/Insert.antt =====
-- `HTable_Insert`.
use gklib.Base.{
  ℕ, ◌+◌, ◌*◌, ◌/◌, ◌≤◌, ◌<◌, ◌≡◌, refl, true, false, none, arith, ltb, inl, inr, Bool-cases,
  not-ltb,
}
use gklib.Base.Outcome.{ok}
use gklib.HTable.{int_max, is_free, HTable, Memory, is_valid, Call, insert_into}
use gklib.HTable.Ops.{resize_nosignal, insert_now, insert}
use gklib.HTable.Table.{IsTable, copies, same, htsize-le, is_valid-IsTable}
use gklib.HTable.Grow.{insert_into-Added}
use gklib.HTable.Resize.{
  Grants, Resized, Ends, resize_nosignal-Resized, resize_nosignal-Ends, resized_then-Ends,
}

-- `u` is `t` with one pair more, in some capacity.
pub record Inserted (t : HTable) (k v : ℕ) (u : HTable) : Type 0 where
  pub table : IsTable u
  pub size : u.htsize ≡ t.htsize + 1
  pub pairs : (q w : ℕ) → is_free q ≡ false → copies q w u ≡ copies q w t + same k v q w

insert_now-ok : (t u : HTable) (k v : ℕ) → insert_into t k v ≡ ok 1 u → insert_now t k v ≡ ok tt u
unfolding insert_now
insert_now-ok t u k v h = ground arith

insert_now-Inserted :
    {t : HTable} (table : IsTable t) (k v : ℕ)
    → is_free k ≡ false
    → t.htsize < t.nelements
    → (u : HTable) × (insert_now t k v ≡ ok tt u) × Inserted t k v u
insert_now-Inserted {t} table k v live room =
    let (u, run, a) = insert_into-Added table k v live room in
    (u, insert_now-ok t u k v run, record { table = a.table; size = a.size; pairs = a.pairs })

module _ (m : Memory) (t : HTable) (k v : ℕ) (valid : is_valid t ≡ true)
    (live : is_free k ≡ false) where
  insert-sparse :
      (r : Call (Unit {0}))
      → ltb (t.nelements / 2) t.htsize ≡ false
      → insert_now t k v ≡ r
      → insert m t k v ≡ r
  unfolding insert
  insert-sparse r sparse put = rw (valid, live, sparse) put

  insert-full :
      (b : HTable) (r : Call (Unit {0}))
      → ltb (t.nelements / 2) t.htsize ≡ true
      → ltb (int_max / 2) t.nelements ≡ false
      → resize_nosignal m t (2 * t.nelements) ≡ ok none b
      → insert_now b k v ≡ r
      → insert m t k v ≡ r
  unfolding insert
  insert-full b r full half grown put = rw (valid, live, full, half, grown) put

-- `HTable_Insert` stores the pair for every key that is not reserved, doubling the table first if
-- it is more than half full, where the allocator grants memory and the capacity can double. It
-- keeps the table well-formed and every other pair.
pub insert-Inserted :
    (m : Memory) {t : HTable} (k v : ℕ)
    → Grants m
    → IsTable t
    → is_free k ≡ false
    → t.nelements ≤ int_max / 2
    → (u : HTable) × (insert m t k v ≡ ok tt u) × Inserted t k v u
insert-Inserted m {t} k v g table live half = elim (Bool-cases (ltb (t.nelements / 2) t.htsize)) [
  | inl full ↦
      let (b, run, r) =
        resize_nosignal-Resized m table (2 * t.nelements) (omega (arith, table.positive))
          (omega arith) (omega (arith, htsize-le table)) g in
      let (u, put, i) =
        insert_now-Inserted r.table k v live
          (omega (arith, r.capacity, r.size, htsize-le table, table.positive)) in
      (
        u,
        insert-full m t k v (is_valid-IsTable table) live b (ok tt u) full
            (not-ltb (int_max / 2) t.nelements half) run put,
        record {
          table = i.table;
          size = omega (arith, i.size, r.size);
          pairs = λ q w l. omega (arith, i.pairs q w l, r.pairs q w l);
        },
      )
  | inr sparse ↦
      let (u, put, i) = insert_now-Inserted table k v live (ground (arith, table.positive)) in
      (u, insert-sparse m t k v (is_valid-IsTable table) live (ok tt u) sparse put, i)
]

insert_now-Ends :
    (t : HTable) {b : HTable} (table : IsTable b) (k v : ℕ) (P : HTable → Type 0)
    → is_free k ≡ false
    → b.htsize < b.nelements
    → ((u : HTable) → Inserted b k v u → P u)
    → Ends t (λ _ u. P u) (insert_now b k v)
insert_now-Ends t {b} table k v P live room h =
    let (u, run, i) = insert_now-Inserted table k v live room in rw run (h u i)

-- `HTable_Insert` on a well-formed table, for any key and an allocator that may fail at any point:
-- the call stays inside the array, and either the table has one pair more, is well-formed and has
-- every other pair as before, or it is exactly as it was.
pub insert-Ends :
    (m : Memory) {t : HTable}
    → IsTable t
    → (k v : ℕ) → Ends t (λ _ u. Inserted t k v u) (insert m t k v)
unfolding insert
insert-Ends m {t} table k v = rw (is_valid-IsTable table) (elim (Bool-cases (is_free k)) [
  | inl bad ↦ rw bad refl
  | inr live ↦ rw live (elim (Bool-cases (ltb (t.nelements / 2) t.htsize)) [
    | inr sparse ↦ rw sparse (
        insert_now-Ends t table k v (Inserted t k v) live (ground (arith, table.positive))
          (λ u i. i))
    | inl full ↦ rw full (elim (Bool-cases (ltb (int_max / 2) t.nelements)) [
      | inl large ↦ rw large refl
      | inr half ↦ rw half (
          resized_then-Ends t (2 * t.nelements) (Inserted t k v) (λ u. insert_now u k v)
            (resize_nosignal m t (2 * t.nelements)) (resize_nosignal-Ends m table (2 * t.nelements))
            (λ b r.
              insert_now-Ends t r.table k v (Inserted t k v) live
                (omega (arith, r.capacity, r.size, htsize-le table, table.positive))
                (λ u i. regrown r i)))
    ])
  ])
])
  where
    regrown : {b u : HTable} → Resized t (2 * t.nelements) b → Inserted b k v u → Inserted t k v u
    regrown r i = record {
      table = i.table;
      size = omega (arith, i.size, r.size);
      pairs = λ q w l. omega (arith, i.pairs q w l, r.pairs q w l);
    }
