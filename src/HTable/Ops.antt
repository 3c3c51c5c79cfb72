-- ===== src/HTable/Ops.antt =====
-- The public functions of src/htable.c, with their guards and error reports.
use gklib.Base.{
  ℕ, zero, suc, ◌+◌, ◌-◌, ◌*◌, ◌/◌, ◌%◌, inl, inr, Bool, true, false, ◌&&◌, ◌||◌, Option, none,
  some, List, [], ◌∷◌, map, ltb, leb, ◌==◌, if◌then◌else◌, get_elem?,
}
use gklib.Base.Outcome.{
  Signal, sigerr, sigmem, Errno, einval, eoverflow, enospc, unset, Outcome, ok, raised, fault,
}
use gklib.Base.Size.{size_mul}
use gklib.HTable.{
  int_mod, int_max, minus_one, empty_key, deleted_key, is_free, is_pos, Ikv, HTable, Memory, Step,
  next, ret, store, stop, probe, hfunction, is_valid, array_of, Call, insert_into,
}

-- `HTable_Reset` and the start of a resize: every key becomes `HTABLE_EMPTY`.
unfoldable pub clear : List Ikv → List Ikv
clear = map {A = Ikv} (λ e. record e { key = empty_key })

-- The loop of `HTable_ResizeNoSignal` that inserts the old entries; `some EINVAL` is its failure.
unfoldable pub reinsert : List Ikv → HTable → Call (Option Errno)
reinsert [] t = ok none t
reinsert (e ∷ es) t = elim (is_free e.key) [
  | true ↦ reinsert es t
  | false ↦ elim (insert_into t e.key e.val) [
    | ok r t' ↦ elim (r == 0) [ true ↦ ok (some einval) t' | false ↦ reinsert es t' ]
    | raised s n t' ↦ raised s n t'
    | fault ↦ fault
  ]
]

-- The end of `HTable_ResizeNoSignal`: the count check, the release of the old array, the commit.
unfoldable pub publish : Memory → HTable → HTable → Call (Option Errno)
publish m t fresh =
    if fresh.htsize == t.htsize
    then elim m.free [ none ↦ ok none fresh | some e ↦ ok (some e) t ]
    else ok (some einval) t

-- What follows the loop of `HTable_ResizeNoSignal`.
abbrev pub resize_result : Memory → HTable → Call (Option Errno) → Call (Option Errno)
resize_result m t (ok none fresh) = publish m t fresh
resize_result m t (ok (some e) _) = ok (some e) t
resize_result m t (raised s n _) = raised s n t
resize_result m t fault = fault

-- `HTable_ResizeNoSignal`: `none` is the return of 1, `some e` the return of 0 with `errno` e.
unfoldable pub resize_nosignal : Memory → HTable → ℕ → Call (Option Errno)
resize_nosignal m t nelements =
    if is_valid t && (is_pos nelements && leb t.htsize nelements)
    then elim (size_mul nelements 16) [
      | none ↦ ok (some eoverflow) t
      | some bytes ↦ elim (m.malloc bytes) [
        | inl e ↦ ok (some e) t
        | inr block ↦ resize_result m t (
            reinsert (array_of t)
              (record { nelements = nelements; htsize = 0; harray = some (clear block) }))
      ]
    ]
    else ok (some einval) t

-- The signal that goes with an `errno` of a failed resize.
abbrev pub signal_of : Errno → Signal
signal_of einval = sigerr
signal_of _ = sigmem

-- What a caller of `HTable_ResizeNoSignal` does with its result, `after` a success.
abbrev pub resized_then : (HTable → Call (Unit {0})) → Call (Option Errno) → Call (Unit {0})
resized_then after (ok none t) = after t
resized_then after (ok (some e) t) = raised (signal_of e) e t
resized_then after (raised s n t) = raised s n t
resized_then after fault = fault

-- `HTable_Resize`.
unfoldable pub resize : Memory → HTable → ℕ → Call (Unit {0})
resize m t nelements = resized_then (ok tt) (resize_nosignal m t nelements)

-- `HTable_Reset`.
unfoldable pub reset : HTable → Call (Unit {0})
reset t =
    if is_valid t
    then ok tt (record t { harray = some (clear (array_of t)); htsize = 0 })
    else raised sigerr einval t

-- `HTable_Create`; an error leaves no table.
unfoldable pub create : Memory → ℕ → Outcome (Option HTable) (Unit {0})
create m nelements =
    if is_pos nelements
    then elim (size_mul nelements 16) [
      | none ↦ raised sigmem eoverflow none
      | some bytes ↦ elim m.malloc_table [
        | some e ↦ raised sigmem e none
        | none ↦ elim (m.malloc bytes) [
          | inl e ↦ raised sigmem e none
          | inr block ↦
              elim (reset (record { nelements = nelements; htsize = 0; harray = some block })) [
                | ok _ t ↦ ok tt (some t)
                | raised s n t ↦ raised s n (some t)
                | fault ↦ fault
              ]
        ]
      ]
    ]
    else raised sigerr einval none

-- The last lines of `HTable_Insert`.
unfoldable pub insert_now : HTable → ℕ → ℕ → Call (Unit {0})
insert_now t key val = elim (insert_into t key val) [
  | ok r t' ↦ if r == 0 then raised sigerr enospc t' else ok tt t'
  | raised s n t' ↦ raised s n t'
  | fault ↦ fault
]

-- `HTable_Insert`.
unfoldable pub insert : Memory → HTable → ℕ → ℕ → Call (Unit {0})
insert m t key val =
    if is_valid t
    then if is_free key
      then raised sigerr einval t
      else if ltb (t.nelements / 2) t.htsize
      then if ltb (int_max / 2) t.nelements
        then raised sigmem eoverflow t
        else elim (resize_nosignal m t (2 * t.nelements)) [
          | ok none t' ↦ insert_now t' key val
          | ok (some e) t' ↦ raised (signal_of e) e t'
          | raised s n t' ↦ raised s n t'
          | fault ↦ fault
        ]
      else insert_now t key val
    else raised sigerr einval t

-- The table after a slot was marked `HTABLE_DELETED`: `htsize--`.
abbrev pub drop_one : HTable → List Ikv → HTable
drop_one t a = record t { harray = some a; htsize = (t.htsize + int_mod - 1) % int_mod }

unfoldable pub delete_step : ℕ → Ikv → Step
delete_step key e = if e.key == key then store (record e { key = deleted_key }) 0 else next

-- The returns of `HTable_Delete`: from the loops, or behind them.
abbrev pub delete_result : HTable → Outcome (List Ikv) (Option ℕ) → Call (Unit {0})
delete_result t (ok none a) = ok tt t
delete_result t (ok (some _) a) = ok tt (drop_one t a)
delete_result t (raised s n a) = raised s n t
delete_result t fault = fault

-- `HTable_Delete`.
unfoldable pub delete : HTable → ℕ → Call (Unit {0})
delete t key =
    if is_valid t
    then if is_free key
      then raised sigerr einval t
      else delete_result t
          (probe (delete_step key) (hfunction t.nelements key) t.nelements (array_of t))
    else raised sigerr einval t

unfoldable pub search_step : ℕ → Ikv → Step
search_step key e =
    if e.key == key then ret e.val else if e.key == empty_key then ret minus_one else next

-- The returns of `HTable_Search`.
abbrev pub search_result : HTable → Outcome (List Ikv) (Option ℕ) → Call ℕ
search_result t (ok none a) = ok minus_one t
search_result t (ok (some v) a) = ok v t
search_result t (raised s n a) = raised s n t
search_result t fault = fault

-- `HTable_Search`.
unfoldable pub search : HTable → ℕ → Call ℕ
search t key =
    if is_valid t
    then if is_free key
      then raised sigerr einval t
      else search_result t
          (probe (search_step key) (hfunction t.nelements key) t.nelements (array_of t))
    else raised sigerr einval t

-- At an empty slot the code reports an error and has no `return`: while `gk_exit_on_error` is 0 the
-- loop goes on.
unfoldable pub search_and_delete_step : Bool → ℕ → Ikv → Step
search_and_delete_step exits key e =
    if e.key == key
    then store (record e { key = deleted_key }) e.val
    else if (e.key == empty_key) && exits
    then stop sigerr unset
    else next

-- The returns of `HTable_SearchAndDelete`.
abbrev pub search_and_delete_result : HTable → Outcome (List Ikv) (Option ℕ) → Call ℕ
search_and_delete_result t (ok none a) = ok minus_one t
search_and_delete_result t (ok (some v) a) = ok v (drop_one t a)
search_and_delete_result t (raised s n a) = raised s n t
search_and_delete_result t fault = fault

-- `HTable_SearchAndDelete`, while `gk_exit_on_error` is `exits`.
unfoldable pub search_and_delete : Bool → HTable → ℕ → Call ℕ
search_and_delete exits t key =
    if is_valid t
    then if is_free key
      then raised sigerr einval t
      else search_and_delete_result t (
          probe (search_and_delete_step exits key) (hfunction t.nelements key) t.nelements
            (array_of t))
    else raised sigerr einval t

-- The static variables `first` and `last` of `HTable_GetNext`, both 0 at the start.
pub record Cursor : Type 0 where
  pub first : ℕ
  pub last : ℕ

-- How a loop of `HTable_GetNext` ends: at the key, at an empty slot, at its bound, or outside the
-- array.
pub data Visit : Type 0 where
  hit : ℕ → ℕ → Visit
  barrier ended outside : Visit

unfoldable pub visit : ℕ → ℕ → ℕ → List Ikv → Visit
visit key zero i a = ended
visit key (suc n) i a =
    let rest = visit key n (suc i) a in
    elim (get_elem? a i) [
      | none ↦ outside
      | some e ↦ if e.key == key then hit i e.val else if e.key == empty_key then barrier else rest
    ]

-- What `HTable_GetNext` returns, and what it wrote to `*r_val`.
pub record Next : Type 0 where
  pub result : ℕ
  pub written : Option ℕ

abbrev pub no_more : Next
no_more = record { result = minus_one; written = none }

-- The last loop of `HTable_GetNext`.
unfoldable pub visit_before : HTable → Cursor → ℕ → Outcome Cursor Next
visit_before t c key = elim (visit key (c.last - c.first) c.first (array_of t)) [
  | hit i v ↦ ok (record { result = 1; written = some v }) (record c { first = i + 1 })
  | barrier ↦ ok no_more c
  | ended ↦ ok no_more c
  | outside ↦ fault
]

-- The two loops of `HTable_GetNext`; the first runs only if `first > last`.
unfoldable pub next_from : HTable → Cursor → ℕ → Outcome Cursor Next
next_from t c key =
    if ltb c.last c.first
    then elim (visit key (t.nelements - c.first) c.first (array_of t)) [
      | hit i v ↦ ok (record { result = 1; written = some v }) (record c { first = i + 1 })
      | barrier ↦ ok no_more c
      | ended ↦ visit_before t (record c { first = 0 }) key
      | outside ↦ fault
    ]
    else visit_before t c key

-- `HTable_GetNext`; `kind` is HTABLE_FIRST (1) or HTABLE_NEXT (2), `writable` says that `r_val` is
-- not NULL.
unfoldable pub get_next : HTable → Cursor → ℕ → Bool → ℕ → Outcome Cursor Next
get_next t c key writable kind =
    if is_valid t && (writable && ((kind == 1) || (kind == 2)))
    then if is_free key
      then raised sigerr einval c
      else if kind == 1
      then next_from t
          (record { first = hfunction t.nelements key; last = hfunction t.nelements key }) key
      else next_from t c key
    else raised sigerr einval c
