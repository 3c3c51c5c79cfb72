-- ===== src/HTable/Scan.antt =====
-- What the two probing loops see: the array turned so that the home slot stands first.
use gklib.Base.{
  ℕ, zero, suc, ◌+◌, ◌≡◌, refl, ap, ◌⊎◌, inl, inr, List, [], ◌∷◌, ◌++◌, arith, length, take, drop,
  tally, num, length-append, length-take, length-drop, take-append-drop, take-append, drop-append,
  Bool, tally-append,
}
use gklib.HTable.{Ikv, Step, next}

abbrev pub rotate : ℕ → List Ikv → List Ikv
rotate n a = drop n a ++ take n a

-- The lists differ in one place at most, where the first has `x` and the second `y`.
pub data Put (x y : Ikv) : List Ikv → List Ikv → Type 0 where
  here : (l : List Ikv) → Put x y (x ∷ l) (y ∷ l)
  there : (z : Ikv) {l m : List Ikv} → Put x y l m → Put x y (z ∷ l) (z ∷ m)

pub length-Put : {x y : Ikv} {l m : List Ikv} → Put x y l m → length m ≡ length l
length-Put (here l) = refl
length-Put (there z p) = ap suc (length-Put p)

-- A change of one slot trades its weight.
pub tally-Put :
    {x y : Ikv} {l m : List Ikv} (t : Ikv → Bool)
    → Put x y l m
    → tally t m + num (t x) ≡ tally t l + num (t y)
tally-Put t (here l) = omega arith
tally-Put t (there z p) = omega (arith, tally-Put t p)

Put-append_left :
    {x y : Ikv} {l m : List Ikv} (s : List Ikv) → Put x y l m → Put x y (s ++ l) (s ++ m)
Put-append_left [] p = p
Put-append_left (z ∷ s) p = there z (Put-append_left s p)

Put-append_right :
    {x y : Ikv} {l m : List Ikv} (s : List Ikv) → Put x y l m → Put x y (l ++ s) (m ++ s)
Put-append_right s (here l) = here (l ++ s)
Put-append_right s (there z p) = there z (Put-append_right s p)

Put-halves :
    {x y : Ikv} {l m : List Ikv} (n : ℕ)
    → Put x y l m
    → (Put x y (drop n l) (drop n m) × (take n l ≡ take n m))
      ⊎ ((drop n l ≡ drop n m) × Put x y (take n l) (take n m))
Put-halves zero p = inl (p, refl)
Put-halves (suc n) (here l) = inr (refl, here (take n l))
Put-halves (suc n) (there z p) = elim (Put-halves n p) [
  | inl (q, e) ↦ inl (q, ap (◌∷◌ z) e)
  | inr (e, q) ↦ inr (e, there z q)
]

pub Put-rotate :
    {x y : Ikv} {l m : List Ikv} (n : ℕ) → Put x y l m → Put x y (rotate n l) (rotate n m)
Put-rotate {x} {y} {l} {m} n p = elim (Put-halves n p) [
  | inl (q, e) ↦ rw (← e) (Put-append_right (take n l) q)
  | inr (e, q) ↦ rw (← e) (Put-append_left (drop n l) q)
]

pub tally-rotate : (t : Ikv → Bool) (n : ℕ) (l : List Ikv) → tally t (rotate n l) ≡ tally t l
tally-rotate t n l =
    let whole = ap (tally t) (take-append-drop n l) in
    omega (arith, tally-append t (drop n l) (take n l), tally-append t (take n l) (drop n l))

pub length-rotate : (n : ℕ) (l : List Ikv) → length (rotate n l) ≡ length l
length-rotate n l = rw length-append (omega (arith, length-take n l, length-drop n l))

-- Turning on by the rest of the length turns back.
pub rotate-rotate : (n k : ℕ) (l : List Ikv) → n + k ≡ length l → rotate k (rotate n l) ≡ l
rotate-rotate n k l e =
    let size : k ≡ length (drop n l) = omega (arith, length-drop n l) in
    rw (size, drop-append, take-append) (take-append-drop n l)

-- `e` is the first slot at which the body does not go on, and `e'` stands there afterwards.
pub data First (body : Ikv → Step) (e e' : Ikv) : List Ikv → List Ikv → Type 0 where
  here : (l : List Ikv) → First body e e' (e ∷ l) (e' ∷ l)
  there :
      (z : Ikv) {l m : List Ikv}
      → body z ≡ next
      → First body e e' l m
      → First body e e' (z ∷ l) (z ∷ m)

pub First-Put :
    {body : Ikv → Step} {e e' : Ikv} {l m : List Ikv} → First body e e' l m → Put e e' l m
First-Put (here l) = Put.here l
First-Put (there z h f) = Put.there z (First-Put f)

abbrev pub Passed : (Ikv → Step) → List Ikv → Type 0
Passed body [] = Unit
Passed body (e ∷ l) = (body e ≡ next) × Passed body l
