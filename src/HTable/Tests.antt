-- ===== src/HTable/Tests.antt =====
-- Runs of the hash table, and the theorems at concrete tables.
use gklib.Base.{
  ℕ, ◌*◌, ◌/◌, ◌≡◌, ◌≢◌, refl, sym, ap, ◌∙◌, ◌⊎◌, inl, inr, Bool, true, false, none, some, List, [],
  ◌∷◌, arith, length, replicate, length-replicate,
}
use gklib.Base.Outcome.{Signal, Errno, enomem, sigerr, ok, raised}
use gklib.Base.Size.{size_mul}
use gklib.HTable.{
  Ikv, HTable, Memory, is_free, minus_one, empty_key, deleted_key, scan, probe, insert_step,
  insert_into,
}
use gklib.HTable.Ops.{
  clear, reinsert, publish, resize_nosignal, resize, reset, create, insert_now, insert, delete_step,
  delete, search_step, search, search_and_delete_step, search_and_delete, Cursor, visit,
  visit_before, next_from, get_next,
}
use gklib.HTable.Table.{IsTable, copies, occurrences, htsize-le}
use gklib.HTable.Lookup.{Answers, search-Answers}
use gklib.HTable.Update.{Removed, delete-Deleted, search_and_delete-Removed}
use gklib.HTable.Resize.{Grants, Resized, Ends, resize-Ends, resize-Resized, create-IsTable}
use gklib.HTable.Insert.{Inserted, insert-Inserted, insert-Ends}
use gklib.HTable.Cursor.{FindsNothing, get_next-FindsNothing}

program : Unit {0}
unfolding scan probe insert_step insert_into clear reinsert publish resize_nosignal resize reset
    create insert_now insert delete_step delete search_step search search_and_delete_step
    search_and_delete visit visit_before next_from get_next size_mul
program = tt

abbrev junk : Ikv
junk = record { key = 77; val = 77 }

-- An allocator that never fails, and hands out blocks with old contents.
calm_sized :
    (n : ℕ) (block : List Ikv)
    → ◌≡◌ {A = Errno ⊎ List Ikv} (inr (replicate (n * 16 / 16) junk)) (inr block)
    → length block ≡ n
calm_sized n block e =
    let same : replicate (n * 16 / 16) junk ≡ block = cc in
    ap (λ (l : List Ikv). length l) (sym same) ∙ (length-replicate (n * 16 / 16) junk ∙ omega arith)

abbrev calm : Memory
calm = record {
  malloc_table = none;
  malloc = λ bytes. inr (replicate (bytes / 16) junk);
  free = none;
  malloc_sized = calm_sized;
}

calm-Grants : Grants calm
calm-Grants = record { tables = refl; blocks = λ n. (replicate (n / 16) junk, refl); frees = refl }

refused : (block : List Ikv) → ◌≢◌ {A = Errno ⊎ List Ikv} (inl enomem) (inr block)
refused block e = cc

-- An allocator with no memory left.
abbrev broke : Memory
broke = record {
  malloc_table = none;
  malloc = λ bytes. inl enomem;
  free = none;
  malloc_sized = λ n block e. absurd (refused block e);
}

abbrev slot : ℕ → ℕ → Ikv
slot k v = record { key = k; val = v }

abbrev sample : HTable
sample = record {
  nelements = 3;
  htsize = 2;
  harray = some (slot 3 30 ∷ slot 6 60 ∷ slot empty_key 77 ∷ []);
}

-- 6 collides with 3 and stands behind it.
searches : (search sample 6 ≡ ok 60 sample) × (search sample 9 ≡ ok minus_one sample)
unfolding program
searches = (refl, refl)

-- Deleting 3 leaves 6 within reach.
deletes : (u : HTable) × (delete sample 3 ≡ ok tt u) × (search u 6 ≡ ok 60 u)
unfolding program
deletes = (
  record {
    nelements = 3;
    htsize = 1;
    harray = some (slot deleted_key 30 ∷ slot 6 60 ∷ slot empty_key 77 ∷ []);
  },
  refl,
  refl,
)

-- The insertion into a table that is more than half full doubles it.
inserts :
    insert calm sample 9 90
    ≡ ok tt (record {
      nelements = 6;
      htsize = 3;
      harray = some (
          slot 6 60
          ∷ slot empty_key 77
          ∷ slot empty_key 77
          ∷ slot 3 30
          ∷ slot 9 90
          ∷ slot empty_key 77
          ∷ []);
    })
unfolding program
inserts = refl

insert_fails : insert broke sample 9 90 ≡ raised Signal.sigmem enomem sample
unfolding program
insert_fails = refl

created :
    (t : HTable) × (create calm 2 ≡ ok tt (some t))
    × IsTable t
    × (t.nelements ≡ 2)
    × ((q w : ℕ) → is_free q ≡ false → copies q w t ≡ 0)
created = create-IsTable calm 2 calm-Grants (omega arith) (omega arith)

create-IsTable_example :
    (t : HTable) × (create calm 2 ≡ ok tt (some t))
    × IsTable t
    × (t.nelements ≡ 2)
    × ((q w : ℕ) → is_free q ≡ false → copies q w t ≡ 0)
create-IsTable_example = create-IsTable calm 2 calm-Grants (omega arith) (omega arith)

abbrev fresh : HTable
fresh = created.0

inserted : (u : HTable) × (insert calm fresh 5 50 ≡ ok tt u) × Inserted fresh 5 50 u
inserted = insert-Inserted calm 5 50 calm-Grants created.2 refl (omega (arith, created.3))

insert-Inserted_example : (u : HTable) × (insert calm fresh 5 50 ≡ ok tt u) × Inserted fresh 5 50 u
insert-Inserted_example =
    insert-Inserted calm 5 50 calm-Grants created.2 refl (omega (arith, created.3))

abbrev one : HTable
one = inserted.0

one-IsTable : IsTable one
one-IsTable = inserted.2.table

insert-Ends_example : Ends one (λ _ u. Inserted one 7 70 u) (insert broke one 7 70)
insert-Ends_example = insert-Ends broke one-IsTable 7 70

resize-Ends_example : Ends one (λ _ u. Resized one 9 u) (resize broke one 9)
resize-Ends_example = resize-Ends broke one-IsTable 9

resize-Resized_example : (u : HTable) × (resize calm fresh 9 ≡ ok tt u) × Resized fresh 9 u
resize-Resized_example =
    resize-Resized calm 9 calm-Grants created.2 (omega arith) (omega arith)
      (omega (arith, htsize-le created.2, created.3))

search-Answers_example : (v : ℕ) × (search one 5 ≡ ok v one) × Answers one 5 v
search-Answers_example = search-Answers one-IsTable 5 refl

delete-Deleted_example :
    (u : HTable) × (delete one 5 ≡ ok tt u)
    × (((u ≡ one) × (occurrences 5 one ≡ 0)) ⊎ ((v : ℕ) × Removed one 5 v u))
delete-Deleted_example = delete-Deleted one-IsTable 5 refl

search_and_delete-Removed_example :
    ((v : ℕ) × (u : HTable) × (search_and_delete true one 5 ≡ ok v u) × Removed one 5 v u)
    ⊎ ((occurrences 5 one ≡ 0)
        × ((search_and_delete true one 5 ≡ ok minus_one one)
            ⊎ ((◌≡◌ {A = Bool} true true)
                × (search_and_delete true one 5 ≡ raised sigerr Errno.unset one))))
search_and_delete-Removed_example = search_and_delete-Removed one-IsTable 5 refl true

abbrev at_start : Cursor
at_start = record { first = 0; last = 0 }

get_next-FindsNothing_example : FindsNothing (get_next sample at_start 6 true 1)
get_next-FindsNothing_example = get_next-FindsNothing sample at_start 6 true 1 refl
