-- ===== src/HTable/Grow.antt =====
-- `HTable_InsertInto` and the loops of `HTable_ResizeNoSignal`.
use mathlib.Core.Path.{subst}
use gklib.Base.{
  ℕ, suc, ◌+◌, ◌-◌, ◌%◌, ◌≤◌, ◌<◌, ◌≡◌, ◌≢◌, refl, sym, ap, ◌∙◌, Bool, true, false, List, [], ◌∷◌,
  some, Option, none, arith, length, tally, num, ◌==◌, inl, inr, Bool-cases, ==_iff,
}
use gklib.Base.Outcome.{Signal, Errno, Outcome, ok}
use gklib.HTable.{
  int_max, int_mod, is_free, Ikv, HTable, array_of, insert_step, insert_into, insert_result,
  empty_key, ret, stop, store,
}
use gklib.HTable.Ops.{clear, reinsert}
use gklib.HTable.Scan.{
  rotate, Put, First, Passed, tally-rotate, tally-Put, Put-rotate, length-rotate,
}
use gklib.HTable.Probe.{Scanned, missed, returned, stored, stopped, probe-Scanned}
use gklib.HTable.Reach.{
  has_key, is_pair, is_live, reach, reach-Put, reach-insert, reach-le-tally, live-Passed,
}
use gklib.HTable.Table.{IsTable, copies, same, htsize-le, change-IsTable, First-array, First-turned}

-- `u` is `t` with one pair more.
pub record Added (t : HTable) (k v : ℕ) (u : HTable) : Type 0 where
  pub table : IsTable u
  pub capacity : u.nelements ≡ t.nelements
  pub size : u.htsize ≡ t.htsize + 1
  pub pairs : (q w : ℕ) → is_free q ≡ false → copies q w u ≡ copies q w t + same k v q w

insert_step-store :
    (k v r : ℕ) (e e' : Ikv)
    → insert_step k v e ≡ store e' r
    → (is_free e.key ≡ true) × (record { key = k; val = v } ≡ e') × (r ≡ 1)
unfolding insert_step
insert_step-store k v r e e' h = ground arith

insert_step-ne-ret : (k v r : ℕ) (e : Ikv) → insert_step k v e ≢ ret r
unfolding insert_step
insert_step-ne-ret k v r e h = ground arith

insert_step-ne-stop : (k v : ℕ) (s : Signal) (n : Errno) (e : Ikv) → insert_step k v e ≢ stop s n
unfolding insert_step
insert_step-ne-stop k v s n e h = ground arith

module _ {t : HTable} (table : IsTable t) (k v : ℕ) (live : is_free k ≡ false)
    (room : t.htsize < t.nelements) where
  abbrev home : ℕ
  home = k % t.nelements

  abbrev turned : List Ikv
  turned = rotate home (array_of t)

  home-le : home ≤ t.nelements
  home-le = let p = table.positive in omega arith

  not_full : ¬ Passed (insert_step k v) turned
  not_full p = omega (
    arith,
    live-Passed k v turned p,
    tally-rotate is_live home (array_of t),
    length-rotate home (array_of t),
    table.counted,
    table.width,
  )

  abbrev pair : Ikv
  pair = record { key = k; val = v }

  pair_full : (pair.key == empty_key) ≡ false
  pair_full = ground arith

  abbrev grown : List Ikv → HTable
  grown b = record t { harray = some b; htsize = (t.htsize + 1) % int_mod }

  grown-Added :
      (e : Ikv) (m b : List Ikv)
      → is_free e.key ≡ true
      → First (insert_step k v) e pair turned m
      → b ≡ rotate (t.nelements - home) m
      → Added t k v (grown b)
  grown-Added e m b free f eb =
      let p : Put e pair (array_of t) b =
        rw eb (First-array (array_of t) home t.nelements (sym table.width) home-le f) in
      let turn : rotate home b ≡ m =
        rw eb (First-turned (array_of t) home t.nelements (sym table.width) home-le f) in
      let small : (t.htsize + 1) % int_mod ≡ t.htsize + 1 =
        omega (arith, htsize-le table, table.small) in
      let near = reach-insert k v live free f in
      let own : reach k turned + num (has_key k pair)
          ≤ reach k (rotate home b) + num (has_key k e) =
        rw turn (ground (arith, near)) in
      record {
        table =
            change-IsTable b _ table p (ground (arith, small, tally-Put is_live p, table.counted))
              (λ q h. elim (Bool-cases (k == q)) [
                | inl eq ↦
                    let e' : k ≡ q = (==_iff k q).0 eq in
                    subst
                      (λ (j : ℕ).
                        reach j (rotate (j % t.nelements) (array_of t)) + num (has_key j pair)
                        ≤ reach j (rotate (j % t.nelements) b) + num (has_key j e))
                      e' own
                | inr ne ↦
                    let near =
                      reach-Put q {x = e} {y = pair} pair_full (Put-rotate (q % t.nelements) p) in
                    rw ne (omega (arith, near))
              ]);
        capacity = refl;
        size = small;
        pairs = λ q w h. ground (arith, tally-Put (is_pair q w) p);
      }

  insert_result-Added :
      {o : Outcome (List Ikv) (Option ℕ)}
      → Scanned (insert_step k v) turned (rotate (t.nelements - home)) o
      → (u : HTable) × (insert_result t o ≡ ok 1 u) × Added t k v u
  insert_result-Added (missed p q) = absurd (not_full p)
  insert_result-Added (returned e r b f q) = absurd (insert_step-ne-ret k v r e b)
  insert_result-Added (stored {a = a} e e' r m b f q) =
      let (free, new, one) = insert_step-store k v r e e' b in
      (grown a, rw one, grown-Added e m a free (rw (← new) at f) q)
  insert_result-Added (stopped e s n b f q) = absurd (insert_step-ne-stop k v s n e b)

  -- With a free slot `HTable_InsertInto` stores the pair and returns 1.
  pub insert_into-Added : (u : HTable) × (insert_into t k v ≡ ok 1 u) × Added t k v u
  unfolding insert_into
  insert_into-Added =
      insert_result-Added
        (probe-Scanned (insert_step k v) home t.nelements (array_of t) (sym table.width) home-le)

-- `u` holds the pairs of `t` and those of the live slots `es`.
pub record Filled (t : HTable) (es : List Ikv) (u : HTable) : Type 0 where
  pub table : IsTable u
  pub capacity : u.nelements ≡ t.nelements
  pub size : u.htsize ≡ t.htsize + tally is_live es
  pub pairs : (q w : ℕ) → is_free q ≡ false → copies q w u ≡ copies q w t + tally (is_pair q w) es

reinsert-free :
    (e : Ikv) (es : List Ikv) (t : HTable)
    → is_free e.key ≡ true
    → reinsert (e ∷ es) t ≡ reinsert es t
unfolding reinsert
reinsert-free e es t h = ground arith

reinsert-live :
    (e : Ikv) (es : List Ikv) (t u : HTable)
    → is_free e.key ≡ false
    → insert_into t e.key e.val ≡ ok 1 u
    → reinsert (e ∷ es) t ≡ reinsert es u
unfolding reinsert
reinsert-live e es t u h put = ground arith

-- Every live slot of the old array finds a place in a table with room for them all.
pub reinsert-Filled :
    (es : List Ikv) (t : HTable)
    → IsTable t
    → t.htsize + tally is_live es ≤ t.nelements
    → (u : HTable) × (reinsert es t ≡ ok none u) × Filled t es u
unfolding reinsert
reinsert-Filled [] t v h = (
  t,
  refl,
  record { table = v; capacity = refl; size = omega arith; pairs = λ q w l. omega arith },
)
reinsert-Filled (e ∷ es) t v h = elim (Bool-cases (is_free e.key)) [
  | inl free ↦
      let (u, run, f) = reinsert-Filled es t v (ground arith) in
      (
        u,
        reinsert-free e es t free ∙ run,
        record {
          table = f.table;
          capacity = f.capacity;
          size = ground (arith, f.size);
          pairs = λ q w l. ground (arith, f.pairs q w l);
        },
      )
  | inr live ↦
      let (t', put, a) = insert_into-Added v e.key e.val live (ground arith) in
      let (u, run, f) = reinsert-Filled es t' a.table (ground (arith, a.size, a.capacity)) in
      (
        u,
        reinsert-live e es t t' live put ∙ run,
        record {
          table = f.table;
          capacity = f.capacity ∙ a.capacity;
          size = ground (arith, f.size, a.size);
          pairs = λ q w l. ground (arith, f.pairs q w l, a.pairs q w l);
        },
      )
]

length-clear : (b : List Ikv) → length (clear b) ≡ length b
unfolding clear
length-clear [] = refl
length-clear (e ∷ b) = ap suc (length-clear b)

pub tally-clear :
    (p : Ikv → Bool) (b : List Ikv)
    → ((e : Ikv) → p (record e { key = empty_key }) ≡ false)
    → tally p (clear b) ≡ 0
unfolding clear
tally-clear p [] h = refl
tally-clear p (e ∷ b) h = rw (h e) (omega (arith, tally-clear p b h))

-- A cleared array is an empty table.
pub clear-IsTable :
    (block : List Ikv) (n : ℕ)
    → length block ≡ n
    → 0 < n
    → n ≤ int_max
    → IsTable (record { nelements = n; htsize = 0; harray = some (clear block) })
clear-IsTable block n e p s = record {
  held = refl;
  width = length-clear block ∙ e;
  positive = p;
  small = s;
  counted = sym (tally-clear is_live block (λ e. refl));
  within = λ q live.
      let nothing = tally-clear (has_key q) block (λ e. ground arith) in
      omega (
        arith,
        nothing,
        reach-le-tally q (rotate (q % n) (clear block)),
        tally-rotate (has_key q) (q % n) (clear block),
      );
}
