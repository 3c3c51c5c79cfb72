-- ===== src/HTable.antt =====
-- The open-addressing hash table of src/htable.c. A C `int` is its 32-bit pattern: `HTABLE_EMPTY`
-- (-1) and `HTABLE_DELETED` (-2) are the two highest patterns, and `(unsigned int)key` is the
-- pattern itself. Values are `int`s too, so their trip through the wider `ssize_t` field is exact.
pub mod Ops
pub mod Scan
pub mod Probe
pub mod Reach
pub mod Table
pub mod Lookup
pub mod Update
pub mod Grow
pub mod Resize
pub mod Insert
pub mod Cursor
mod Tests
use gklib.Base.{
  ℕ, zero, suc, ◌+◌, ◌-◌, ◌*◌, ◌/◌, ◌%◌, ◌^◌, ◌≤◌, ◌≡◌, ◌⊎◌, inl, inr, Bool, true, false, ◌&&◌,
  ◌||◌, Option, none, some, List, [], ◌∷◌, ltb, leb, ◌==◌, if◌then◌else◌, length, get_elem?, set,
}
use gklib.Base.Outcome.{
  Signal, sigerr, sigmem, Errno, einval, eoverflow, enospc, Outcome, ok, raised, fault,
}

abbrev pub int_mod : ℕ
int_mod = 2 ^ 32

abbrev pub int_max : ℕ
int_max = 2 ^ 31 - 1

abbrev pub minus_one : ℕ
minus_one = int_mod - 1

-- The reserved keys.
abbrev pub empty_key : ℕ
empty_key = int_mod - 1

abbrev pub deleted_key : ℕ
deleted_key = int_mod - 2

-- A slot whose key is `HTABLE_EMPTY` or `HTABLE_DELETED`.
abbrev pub is_free : ℕ → Bool
is_free key = (key == empty_key) || (key == deleted_key)

-- `w > 0` and `w >= 0` of an `int`.
abbrev pub is_pos : ℕ → Bool
is_pos w = ltb 0 w && leb w int_max

abbrev pub is_nonneg : ℕ → Bool
is_nonneg w = leb w int_max

-- A slot, `gk_ikv_t`.
pub record Ikv : Type 0 where
  pub key : ℕ
  pub val : ℕ

-- `harray` is `none` for NULL.
pub record HTable : Type 0 where
  pub nelements : ℕ
  pub htsize : ℕ
  pub harray : Option (List Ikv)

-- What the allocator answers (src/memory.c over the C library): a block of so many bytes with
-- contents that are not specified or an `errno`; `free` may refuse a block that is not tracked.
pub record Memory : Type 0 where
  pub malloc_table : Option Errno
  pub malloc : ℕ → Errno ⊎ List Ikv
  pub free : Option Errno
  -- A block has room for as many slots of 16 bytes as were asked for.
  pub malloc_sized : (n : ℕ) (block : List Ikv) → malloc (n * 16) ≡ inr block → length block ≡ n

-- What the body of a probing loop does at a slot: go on, return, write the slot and return, or
-- report an error.
pub data Step : Type 0 where
  next : Step
  ret : ℕ → Step
  store : Ikv → ℕ → Step
  stop : Signal → Errno → Step

-- `for (; rounds > 0; i++, rounds--)` over the array: `some r` when the body returned `r`.
pub scan : (Ikv → Step) → ℕ → ℕ → List Ikv → Outcome (List Ikv) (Option ℕ)
scan body zero i a = ok none a
scan body (suc n) i a =
    let rest = scan body n (suc i) a in
    elim (get_elem? a i) [
      | none ↦ fault
      | some e ↦ elim (body e) [
        | next ↦ rest
        | ret r ↦ ok (some r) a
        | store e' r ↦ ok (some r) (set a i e')
        | stop s n ↦ raised s n a
      ]
    ]

-- The second loop runs if the first came to its end.
abbrev pub then_loop :
    Outcome (List Ikv) (Option ℕ)
    → (List Ikv → Outcome (List Ikv) (Option ℕ))
    → Outcome (List Ikv) (Option ℕ)
then_loop (ok none a) loop = loop a
then_loop (ok (some r) a) loop = ok (some r) a
then_loop (raised s n a) loop = raised s n a
then_loop fault loop = fault

-- `for (i=first; i<nelements; i++)`, then `for (i=0; i<first; i++)`.
unfoldable pub probe : (Ikv → Step) → ℕ → ℕ → List Ikv → Outcome (List Ikv) (Option ℕ)
probe body first nelements a = then_loop (scan body (nelements - first) first a) (scan body first 0)

-- `HTable_HFunction` at a positive capacity.
abbrev pub hfunction : ℕ → ℕ → ℕ
hfunction nelements key = key % nelements

-- `HTable_IsValid`.
abbrev pub is_valid : HTable → Bool
is_valid t = elim t.harray [
  | none ↦ false
  | some _ ↦ is_pos t.nelements && (is_nonneg t.htsize && leb t.htsize t.nelements)
]

abbrev pub array_of : HTable → List Ikv
array_of t = elim t.harray [ none ↦ [] | some a ↦ a ]

-- A call of one of the functions, which leaves the table and a result.
abbrev pub Call : Type 0 → Type 0
Call A = Outcome HTable A

-- The `if` in the loops of `HTable_InsertInto`.
unfoldable pub insert_step : ℕ → ℕ → Ikv → Step
insert_step key val e = if is_free e.key then store (record { key = key; val = val }) 1 else next

-- The returns of `HTable_InsertInto`, with `htsize++`.
abbrev pub insert_result : HTable → Outcome (List Ikv) (Option ℕ) → Call ℕ
insert_result t (ok none a) = ok 0 t
insert_result t (ok (some r) a) =
    ok r (record t { harray = some a; htsize = (t.htsize + 1) % int_mod })
insert_result t (raised s n a) = raised s n t
insert_result t fault = fault

-- `HTable_InsertInto`.
unfoldable pub insert_into : HTable → ℕ → ℕ → Call ℕ
insert_into t key val =
    insert_result t
      (probe (insert_step key val) (hfunction t.nelements key) t.nelements (array_of t))
