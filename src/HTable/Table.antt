-- ===== src/HTable/Table.antt =====
-- Well-formed tables, and what the slots of one mean: a bag of pairs.
use mathlib.Core.Path.{subst}
use gklib.Base.{
  ℕ, ◌+◌, ◌-◌, ◌%◌, ◌≤◌, ◌<◌, ◌≡◌, refl, ◌∙◌, true, false, ◌&&◌, List, some, arith, length, tally,
  num, tally-le-length, ◌==◌,
}
use gklib.HTable.{int_max, is_free, Ikv, HTable, is_valid, array_of, Step}
use gklib.HTable.Scan.{
  rotate, Put, First, First-Put, length-Put, Put-rotate, rotate-rotate, length-rotate,
}
use gklib.HTable.Reach.{has_key, is_pair, is_live, reach, reach-keep}

-- Every slot of the array is in bounds, `htsize` counts the live slots, and every live key is
-- within reach of its home slot.
pub record IsTable (t : HTable) : Type 0 where
  pub held : t.harray ≡ some (array_of t)
  pub width : length (array_of t) ≡ t.nelements
  pub positive : 0 < t.nelements
  pub small : t.nelements ≤ int_max
  pub counted : t.htsize ≡ tally is_live (array_of t)
  pub within :
      (q : ℕ)
      → is_free q ≡ false
      → tally (has_key q) (array_of t) ≡ reach q (rotate (q % t.nelements) (array_of t))

-- How often the table holds the pair, and the key.
abbrev pub copies : ℕ → ℕ → HTable → ℕ
copies q v t = tally (is_pair q v) (array_of t)

abbrev pub occurrences : ℕ → HTable → ℕ
occurrences q t = tally (has_key q) (array_of t)

abbrev pub same : ℕ → ℕ → ℕ → ℕ → ℕ
same k v q w = num ((k == q) && (v == w))

pub htsize-le : {t : HTable} → IsTable t → t.htsize ≤ t.nelements
htsize-le {t} v = omega (arith, v.counted, v.width, tally-le-length is_live (array_of t))

pub is_valid-IsTable : {t : HTable} → IsTable t → is_valid t ≡ true
is_valid-IsTable {t} v = let size = htsize-le v in let p = v.positive in rw v.held (ground arith)

module _ (a : List Ikv) (first n : ℕ) (en : n ≡ length a) (h : first ≤ n) where
  pub unturn : rotate (n - first) (rotate first a) ≡ a
  unturn = rotate-rotate first (n - first) a (omega arith)

  module _ {body : Ikv → Step} {e e' : Ikv} {m : List Ikv}
      (f : First body e e' (rotate first a) m) where
    pub First-array : Put e e' a (rotate (n - first) m)
    First-array =
        subst (λ l. Put e e' l (rotate (n - first) m)) unturn (Put-rotate (n - first) (First-Put f))

    pub First-turned : rotate first (rotate (n - first) m) ≡ m
    First-turned =
        rotate-rotate (n - first) first m
          (omega (arith, length-Put (First-Put f), length-rotate first a))

-- A table with one slot changed is well-formed if no live key falls out of reach.
pub change-IsTable :
    {t : HTable} {x y : Ikv} (b : List Ikv) (size : ℕ)
    → IsTable t
    → Put x y (array_of t) b
    → size ≡ tally is_live b
    → ((q : ℕ)
        → is_free q ≡ false
        → reach q (rotate (q % t.nelements) (array_of t)) + num (has_key q y)
          ≤ reach q (rotate (q % t.nelements) b) + num (has_key q x))
    → IsTable (record t { harray = some b; htsize = size })
change-IsTable {t} b size v p e grows = record {
  held = refl;
  width = length-Put p ∙ v.width;
  positive = v.positive;
  small = v.small;
  counted = e;
  within = λ q live. reach-keep q (q % t.nelements) p (v.within q live) (grows q live);
}
