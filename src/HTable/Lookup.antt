-- ===== src/HTable/Lookup.antt =====
-- `HTable_Search`.
use gklib.Base.{
  ℕ, ◌%◌, ◌≤◌, ◌<◌, ◌≡◌, ◌≢◌, refl, sym, ◌∙◌, true, false, List, Option, arith, ◌==◌, ◌⊎◌, inl, inr,
}
use gklib.Base.Outcome.{Signal, Errno, Outcome, ok}
use gklib.HTable.{is_free, Ikv, HTable, array_of, minus_one, empty_key, ret, stop, store}
use gklib.HTable.Ops.{search, search_step, search_result}
use gklib.HTable.Scan.{rotate, First-Put, Passed, tally-rotate}
use gklib.HTable.Probe.{Scanned, missed, returned, stored, stopped, probe-Scanned}
use gklib.HTable.Reach.{has_key, is_pair, Skips, reach-empty, tally-Passed, tally-of}
use gklib.HTable.Table.{IsTable, copies, occurrences, is_valid-IsTable}

-- What a search may answer: a value that the table holds under the key, or -1 where the key does
-- not occur.
abbrev pub Answers : HTable → ℕ → ℕ → Type 0
Answers t k v = (0 < copies k v t) ⊎ ((v ≡ minus_one) × (occurrences k t ≡ 0))

search_step-ret :
    (k r : ℕ) (e : Ikv)
    → search_step k e ≡ ret r
    → (is_pair k r e ≡ true) ⊎ (((e.key == empty_key) ≡ true) × (r ≡ minus_one))
unfolding search_step
search_step-ret k r e h = ground arith

search_step-ne-store : (k r : ℕ) (e e' : Ikv) → search_step k e ≢ store e' r
unfolding search_step
search_step-ne-store k r e e' h = ground arith

search_step-ne-stop : (k : ℕ) (s : Signal) (n : Errno) (e : Ikv) → search_step k e ≢ stop s n
unfolding search_step
search_step-ne-stop k s n e h = ground arith

search_step-Skips : (k : ℕ) → Skips k (search_step k)
unfolding search_step
search_step-Skips k z h = ground arith

module _ {t : HTable} (table : IsTable t) (k : ℕ) (live : is_free k ≡ false) where
  abbrev turned : List Ikv
  turned = rotate (k % t.nelements) (array_of t)

  absent : Passed (search_step k) turned → occurrences k t ≡ 0
  absent p =
      sym (tally-rotate (has_key k) (k % t.nelements) (array_of t))
      ∙ tally-Passed k (search_step k) (search_step-Skips k) turned p

  search_result-Answers :
      {wrap : List Ikv → List Ikv} {o : Outcome (List Ikv) (Option ℕ)}
      → Scanned (search_step k) turned wrap o
      → (v : ℕ) × (search_result t o ≡ ok v t) × Answers t k v
  search_result-Answers (missed p q) = (minus_one, refl, inr (refl, absent p))
  search_result-Answers (returned e r b f q) = (
    r,
    refl,
    elim (search_step-ret k r e b) [
      | inl pair ↦
          let one = tally-of (is_pair k r) (First-Put f) in
          inl (rw (← tally-rotate (is_pair k r) (k % t.nelements) (array_of t)) (rw pair at one))
      | inr (hole, e) ↦
          inr (e, table.within k live ∙ reach-empty k (search_step k) (search_step-Skips k) hole f)
    ],
  )
  search_result-Answers (stored e e' r m b f q) = absurd (search_step-ne-store k r e e' b)
  search_result-Answers (stopped e s n b f q) = absurd (search_step-ne-stop k s n e b)

  -- On a well-formed table `HTable_Search` returns, for a key that is not reserved, a value that
  -- the table holds under the key, or -1 where the key does not occur; it leaves the table alone.
  pub search-Answers : (v : ℕ) × (search t k ≡ ok v t) × Answers t k v
  unfolding search
  search-Answers =
      let home : k % t.nelements ≤ t.nelements = home-le in
      let (v, e, answers) = search_result-Answers (
        probe-Scanned (search_step k) (k % t.nelements) t.nelements (array_of t) (sym table.width)
          home) in
      (v, rw (is_valid-IsTable table, live) e, answers)
    where
      home-le : k % t.nelements ≤ t.nelements
      home-le = let p = table.positive in omega arith
