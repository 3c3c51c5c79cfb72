-- ===== src/HTable/Update.antt =====
-- `HTable_Delete` and `HTable_SearchAndDelete`.
use gklib.Base.{
  ℕ, ◌+◌, ◌-◌, ◌%◌, ◌≤◌, ◌<◌, ◌≡◌, ◌≢◌, refl, sym, ◌∙◌, Bool, true, false, List, Option, arith,
  ◌==◌, ◌⊎◌, inl, inr,
}
use gklib.Base.Outcome.{Signal, sigerr, Errno, unset, Outcome, ok, raised}
use gklib.HTable.{
  is_free, Ikv, HTable, array_of, Step, minus_one, empty_key, deleted_key, ret, stop, store, Call,
}
use gklib.HTable.Ops.{
  delete, delete_step, delete_result, drop_one, search_and_delete, search_and_delete_step,
  search_and_delete_result,
}
use gklib.HTable.Scan.{rotate, Put, First, Passed, tally-rotate, tally-Put, Put-rotate}
use gklib.HTable.Probe.{Scanned, missed, returned, stored, stopped, probe-Scanned}
use gklib.HTable.Reach.{
  has_key, is_pair, is_live, reach-Put, tally-Passed, tally-of, Skips, reach-empty,
}
use gklib.HTable.Table.{
  IsTable, copies, occurrences, same, is_valid-IsTable, htsize-le, change-IsTable, First-array,
}

-- `u` is `t` with one pair less, whose key is `k` and whose value is `v`.
pub record Removed (t : HTable) (k v : ℕ) (u : HTable) : Type 0 where
  pub table : IsTable u
  pub there : 0 < copies k v t
  pub pairs : (q w : ℕ) → is_free q ≡ false → copies q w u + same k v q w ≡ copies q w t

-- Marking a slot of key `k` as deleted removes its pair.
pub drop-Removed :
    {t : HTable} {k : ℕ} (e : Ikv) (b : List Ikv)
    → IsTable t
    → is_free k ≡ false
    → (e.key == k) ≡ true
    → Put e (record e { key = deleted_key }) (array_of t) b
    → Removed t k e.val (drop_one t b)
drop-Removed {t} {k} e b v live here p = record {
  table =
      change-IsTable b _ v p
        (ground (arith, tally-Put is_live p, tally-of is_live p, htsize-le v, v.counted, v.small))
        (λ q h. ground (
          arith,
          reach-Put q {x = e} {y = record e { key = deleted_key }} refl
              (Put-rotate (q % t.nelements) p),
        ));
  there = ground (arith, tally-of (is_pair k e.val) p);
  pairs = λ q w h. ground (arith, tally-Put (is_pair q w) p);
}

delete_step-Skips : (k : ℕ) → Skips k (delete_step k)
unfolding delete_step
delete_step-Skips k z h = ground arith

delete_step-store :
    (k r : ℕ) (e e' : Ikv)
    → delete_step k e ≡ store e' r
    → ((e.key == k) ≡ true) × (record e { key = deleted_key } ≡ e')
unfolding delete_step
delete_step-store k r e e' h = ground arith

delete_step-ne-ret : (k r : ℕ) (e : Ikv) → delete_step k e ≢ ret r
unfolding delete_step
delete_step-ne-ret k r e h = ground arith

delete_step-ne-stop : (k : ℕ) (s : Signal) (n : Errno) (e : Ikv) → delete_step k e ≢ stop s n
unfolding delete_step
delete_step-ne-stop k s n e h = ground arith

take_step-Skips : (x : Bool) (k : ℕ) → Skips k (search_and_delete_step x k)
unfolding search_and_delete_step
take_step-Skips x k z h = ground arith

take_step-store :
    (x : Bool) (k r : ℕ) (e e' : Ikv)
    → search_and_delete_step x k e ≡ store e' r
    → ((e.key == k) ≡ true) × (record e { key = deleted_key } ≡ e') × (e.val ≡ r)
unfolding search_and_delete_step
take_step-store x k r e e' h = ground arith

take_step-ne-ret : (x : Bool) (k r : ℕ) (e : Ikv) → search_and_delete_step x k e ≢ ret r
unfolding search_and_delete_step
take_step-ne-ret x k r e h = ground arith

take_step-stop :
    (x : Bool) (k : ℕ) (s : Signal) (n : Errno) (e : Ikv)
    → search_and_delete_step x k e ≡ stop s n
    → ((e.key == empty_key) ≡ true) × (x ≡ true) × (s ≡ sigerr) × (n ≡ unset)
unfolding search_and_delete_step
take_step-stop x k s n e h = ground arith

module _ {t : HTable} (table : IsTable t) (k : ℕ) (live : is_free k ≡ false) where
  abbrev home : ℕ
  home = k % t.nelements

  abbrev turned : List Ikv
  turned = rotate home (array_of t)

  home-le : home ≤ t.nelements
  home-le = let p = table.positive in omega arith

  absent : (body : Ikv → Step) → Skips k body → Passed body turned → occurrences k t ≡ 0
  absent body s p =
      sym (tally-rotate (has_key k) home (array_of t)) ∙ tally-Passed k body s turned p

  -- The slot that the walk marks.
  dropped :
      {body : Ikv → Step} (e e' : Ikv) (m b : List Ikv)
      → ((e.key == k) ≡ true)
      → (record e { key = deleted_key } ≡ e')
      → First body e e' turned m
      → b ≡ rotate (t.nelements - home) m
      → Removed t k e.val (drop_one t b)
  dropped e e' m b here q f eb =
      drop-Removed e b table live here
        (rw (q, eb) (First-array (array_of t) home t.nelements (sym table.width) home-le f))

  abbrev Deleted : HTable → Type 0
  Deleted u = ((u ≡ t) × (occurrences k t ≡ 0)) ⊎ ((v : ℕ) × Removed t k v u)

  delete_result-Deleted :
      {o : Outcome (List Ikv) (Option ℕ)}
      → Scanned (delete_step k) turned (rotate (t.nelements - home)) o
      → (u : HTable) × (delete_result t o ≡ ok tt u) × Deleted u
  delete_result-Deleted (missed p q) =
      (t, refl, inl (refl, absent (delete_step k) (delete_step-Skips k) p))
  delete_result-Deleted (returned e r b f q) = absurd (delete_step-ne-ret k r e b)
  delete_result-Deleted (stored {a = a} e e' r m b f q) =
      let (here, same) = delete_step-store k r e e' b in
      (drop_one t a, refl, inr (e.val, dropped e e' m a here same f q))
  delete_result-Deleted (stopped e s n b f q) = absurd (delete_step-ne-stop k s n e b)

  -- On a well-formed table `HTable_Delete` returns for every key that is not reserved: it removes
  -- one pair with the key, keeps every other pair and the well-formedness, or, where the key does
  -- not occur, leaves the table as it is.
  pub delete-Deleted : (u : HTable) × (delete t k ≡ ok tt u) × Deleted u
  unfolding delete
  delete-Deleted =
      let (u, e, d) =
        delete_result-Deleted
          (probe-Scanned (delete_step k) home t.nelements (array_of t) (sym table.width) home-le) in
      (u, rw (is_valid-IsTable table, live) e, d)

  -- What `HTable_SearchAndDelete` may do where the key does not occur.
  abbrev Fails : Bool → Call ℕ → Type 0
  Fails exits r = (r ≡ ok minus_one t) ⊎ ((exits ≡ true) × (r ≡ raised sigerr unset t))

  take_result-Removed :
      (x : Bool) {o : Outcome (List Ikv) (Option ℕ)}
      → Scanned (search_and_delete_step x k) turned (rotate (t.nelements - home)) o
      → ((v : ℕ) × (u : HTable) × (search_and_delete_result t o ≡ ok v u) × Removed t k v u)
        ⊎ ((occurrences k t ≡ 0) × Fails x (search_and_delete_result t o))
  take_result-Removed x (missed p q) =
      inr (absent (search_and_delete_step x k) (take_step-Skips x k) p, inl refl)
  take_result-Removed x (returned e r b f q) = absurd (take_step-ne-ret x k r e b)
  take_result-Removed x (stored {a = a} e e' r m b f q) =
      let (here, same, val) = take_step-store x k r e e' b in
      inl (e.val, drop_one t a, rw val, dropped e e' m a here same f q)
  take_result-Removed x (stopped e s n b f q) =
      let (hole, ex, es, en) = take_step-stop x k s n e b in
      inr (
        table.within k live
            ∙ reach-empty k (search_and_delete_step x k) (take_step-Skips x k) hole f,
        inr (ex, rw (es, en)),
      )

  -- On a well-formed table, for a key that is not reserved, `HTable_SearchAndDelete` removes one pair
  -- with the key and returns its value. Where the key does not occur it returns -1 or, only while errors exit, reports SIGERR,
  -- and in both cases leaves the table as it is.
  pub search_and_delete-Removed :
      (exits : Bool)
      → ((v : ℕ) × (u : HTable) × (search_and_delete exits t k ≡ ok v u) × Removed t k v u)
        ⊎ ((occurrences k t ≡ 0) × Fails exits (search_and_delete exits t k))
  unfolding search_and_delete
  search_and_delete-Removed exits =
      rw (is_valid-IsTable table, live)
        (take_result-Removed exits (
          probe-Scanned (search_and_delete_step exits k) home t.nelements (array_of t)
            (sym table.width) home-le))
