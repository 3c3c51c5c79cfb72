-- ===== src/HTable/Reach.antt =====
-- What a search along the turned array can find: the slots before the first empty one.
use gklib.Base.{
  ℕ, ◌+◌, ◌≤◌, ◌≡◌, refl, Bool, true, false, ◌&&◌, List, [], ◌∷◌, arith, length, tally, num, ◌==◌,
  if◌then◌else◌,
}
use gklib.HTable.{empty_key, is_free, Ikv, Step, next, insert_step}
use gklib.HTable.Scan.{rotate, Put, First, Passed, tally-Put, tally-rotate}

abbrev pub has_key : ℕ → Ikv → Bool
has_key q e = e.key == q

abbrev pub is_pair : ℕ → ℕ → Ikv → Bool
is_pair q v e = (e.key == q) && (e.val == v)

abbrev pub is_live : Ikv → Bool
is_live e = if is_free e.key then false else true

-- The slots with key `q` before the first empty one.
abbrev pub reach : ℕ → List Ikv → ℕ
reach q [] = 0
reach q (e ∷ l) = if e.key == empty_key then 0 else num (has_key q e) + reach q l

pub reach-le-tally : (q : ℕ) (l : List Ikv) → reach q l ≤ tally (has_key q) l
reach-le-tally q [] = omega arith
reach-le-tally q (e ∷ l) = ground (arith, reach-le-tally q l)

-- A slot that does not become empty hides nothing.
pub reach-Put :
    (q : ℕ) {x y : Ikv} {l m : List Ikv}
    → (y.key == empty_key) ≡ false
    → Put x y l m
    → reach q l ≤ reach q m + num (has_key q x)
reach-Put q h (Put.here l) = ground arith
reach-Put q h (Put.there z p) = ground (arith, reach-Put q h p)

-- A pair that takes the first free slot can be found.
pub reach-insert :
    (k v : ℕ) {e : Ikv} {l m : List Ikv}
    → is_free k ≡ false
    → is_free e.key ≡ true
    → First (insert_step k v) e (record { key = k; val = v }) l m
    → reach k l + 1 ≤ reach k m
unfolding insert_step
reach-insert k v live free (First.here l) = ground arith
reach-insert k v live free (First.there z h f) = ground (arith, reach-insert k v live free f)

-- A body that goes on only at slots with another key.
abbrev pub Skips : ℕ → (Ikv → Step) → Type 0
Skips k body = (z : Ikv) → body z ≡ next → has_key k z ≡ false

module _ (k : ℕ) (body : Ikv → Step) (skips : Skips k body) where
  -- A walk that ends at an empty slot, or passes them all, has left out no copy.
  pub reach-empty :
      {e e' : Ikv} {l m : List Ikv}
      → (e.key == empty_key) ≡ true
      → First body e e' l m
      → reach k l ≡ 0
  reach-empty h (First.here l) = ground arith
  reach-empty h (First.there z n f) = ground (arith, skips z n, reach-empty h f)

  pub tally-Passed : (l : List Ikv) → Passed body l → tally (has_key k) l ≡ 0
  tally-Passed [] p = refl
  tally-Passed (e ∷ l) p = ground (arith, skips e p.0, tally-Passed l p.1)

-- No free slot.
pub live-Passed : (k v : ℕ) (l : List Ikv) → Passed (insert_step k v) l → tally is_live l ≡ length l
unfolding insert_step
live-Passed k v [] p = refl
live-Passed k v (e ∷ l) p = ground (arith, live-Passed k v l p.1)

pub tally-of : (t : Ikv → Bool) {x y : Ikv} {l m : List Ikv} → Put x y l m → num (t x) ≤ tally t l
tally-of t (Put.here l) = omega arith
tally-of t (Put.there z p) = omega (arith, tally-of t p)

-- A pair is counted under its key too.
pub tally-is_pair-le : (q v : ℕ) (l : List Ikv) → tally (is_pair q v) l ≤ tally (has_key q) l
tally-is_pair-le q v [] = omega arith
tally-is_pair-le q v (e ∷ l) = ground (arith, tally-is_pair-le q v l)

-- The step that keeps every copy within reach.
pub reach-keep :
    (q first : ℕ) {x y : Ikv} {a b : List Ikv}
    → Put x y a b
    → tally (has_key q) a ≡ reach q (rotate first a)
    → reach q (rotate first a) + num (has_key q y) ≤ reach q (rotate first b) + num (has_key q x)
    → tally (has_key q) b ≡ reach q (rotate first b)
reach-keep q first {a = a} {b = b} p before grows = omega (
  arith,
  tally-Put (has_key q) p,
  reach-le-tally q (rotate first b),
  tally-rotate (has_key q) first b,
)
