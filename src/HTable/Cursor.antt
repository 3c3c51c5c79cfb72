-- ===== src/HTable/Cursor.antt =====
-- `HTable_GetNext`.
use gklib.Base.{ℕ, ◌-◌, ◌≡◌, refl, Bool, false, ◌||◌, ◌&&◌, arith, ◌==◌, ltb, Bool-cases, inl, inr}
use gklib.Base.Outcome.{Outcome, ok, raised, fault}
use gklib.HTable.{HTable, is_free, is_valid}
use gklib.HTable.Ops.{Cursor, Next, no_more, visit, visit_before, next_from, get_next}

-- The answer -1 with nothing written, or an error; the static variables stay equal.
abbrev pub FindsNothing : Outcome Cursor Next → Type 0
FindsNothing (ok r c) = (r ≡ no_more) × (c.first ≡ c.last)
FindsNothing (raised s e c) = c.first ≡ c.last
FindsNothing fault = ⊥

visit_before-empty :
    (t : HTable) (c : Cursor) (k : ℕ) → c.first ≡ c.last → FindsNothing (visit_before t c k)
unfolding visit_before visit
visit_before-empty t c k e =
    let rounds : c.last - c.first ≡ 0 = omega arith in rw (rounds, visit_before, visit) (refl, e)

next_from-FindsNothing :
    (t : HTable) (c : Cursor) (k : ℕ) → c.first ≡ c.last → FindsNothing (next_from t c k)
unfolding next_from
next_from-FindsNothing t c k e =
    let past : ltb c.last c.first ≡ false = ground arith in rw past (visit_before-empty t c k e)

-- While the static variables `first` and `last` are equal, as they are at the start and after every
-- HTABLE_FIRST, `HTable_GetNext` finds nothing: on every table and for every argument it returns -1
-- without a value or reports an error, and the two variables stay equal.
pub get_next-FindsNothing :
    (t : HTable) (c : Cursor) (k : ℕ) (writable : Bool) (kind : ℕ)
    → c.first ≡ c.last
    → FindsNothing (get_next t c k writable kind)
unfolding get_next
get_next-FindsNothing t c k writable kind e =
    elim (Bool-cases (is_valid t && (writable && ((kind == 1) || (kind == 2))))) [
      | inr bad ↦ rw bad e
      | inl good ↦ rw good (elim (Bool-cases (is_free k)) [
        | inl reserved ↦ rw reserved e
        | inr live ↦ rw live (elim (Bool-cases (kind == 1)) [
          | inl first ↦ rw first (next_from-FindsNothing t _ k refl)
          | inr next ↦ rw next (next_from-FindsNothing t c k e)
        ])
      ])
    ]
