-- ===== src/Sparse/Pointers.antt =====
-- The loops on the pointers: counting, MAKECSR and SHIFTCSR.
use gklib.Base.{
  ℕ, zero, suc, ◌+◌, ◌<◌, ◌≡◌, refl, ap, ◌∙◌, inl, inr, some, List, [], ◌∷◌, length, get_or, set,
  ◌==◌, arith, length-set, Bool-cases,
}
use gklib.Base.Arrays.{◌>>=◌, write-eq-some, get_elem?-get_or, get_or-set}
use gklib.Sparse.{bump, shift_right, shift_csr}
use gklib.Sparse.Loops.{each}
use gklib.Sparse.Counts.{count, AllBelow}

pub bump-eq :
    (k : ℕ) (ptr : List ℕ) → k < length ptr → bump k ptr ≡ some (set ptr k (suc (get_or ptr k 0)))
unfolding bump
bump-eq k ptr h = rw (get_elem?-get_or ptr k 0 h, write-eq-some ptr k (suc (get_or ptr k 0)) h) refl

-- An array of the same length with each count added.
pub record Counted {E : Type 0} (key : E → ℕ) (es : List E) (ptr : List ℕ) : Type 0 where
  pub after : List ℕ
  pub run : each (λ e p. bump (key e) p) es ptr ≡ some after
  pub size : length after ≡ length ptr
  pub at : (k : ℕ) → get_or after k 0 ≡ get_or ptr k 0 + count key k es

pub bumps-Counted :
    {E : Type 0} (key : E → ℕ) (es : List E) (ptr : List ℕ)
    → AllBelow key (length ptr) es
    → Counted key es ptr
bumps-Counted key [] ptr h = record { after = ptr; run = refl; size = refl; at = λ k. omega arith }
bumps-Counted key (e ∷ es) ptr (h, hs) =
    let ptr' = set ptr (key e) (suc (get_or ptr (key e) 0)) in
    let same : length ptr' ≡ length ptr = length-set ptr (key e) (suc (get_or ptr (key e) 0)) in
    let r = bumps-Counted key es ptr' (rw same hs) in
    record {
      after = r.after;
      run = ap (λ o. o >>= each (λ e p. bump (key e) p) es) (bump-eq (key e) ptr h) ∙ r.run;
      size = r.size ∙ same;
      at = λ k. ground (arith, r.at k, get_or-set ptr (key e) k (suc (get_or ptr (key e) 0)) 0);
    }

-- `a` moved up by one place, from 0 to `n`.
pub record Shifted (n : ℕ) (a : List ℕ) : Type 0 where
  pub after : List ℕ
  pub run : shift_right n a ≡ some after
  pub size : length after ≡ length a
  pub moved : (k : ℕ) → k < n → get_or after (suc k) 0 ≡ get_or a k 0
  pub rest : (k : ℕ) → n < k → get_or after k 0 ≡ get_or a k 0

shift_right-suc :
    (n : ℕ) (a : List ℕ)
    → suc n < length a
    → shift_right (suc n) a ≡ shift_right n (set a (suc n) (get_or a n 0))
unfolding shift_right
shift_right-suc n a h =
    rw (get_elem?-get_or a n 0 (omega arith), write-eq-some a (suc n) (get_or a n 0) h) refl

shift_right-zero : (a : List ℕ) → shift_right zero a ≡ some a
unfolding shift_right
shift_right-zero a = refl

shift_right-Shifted : (n : ℕ) (a : List ℕ) → n < length a → Shifted n a
shift_right-Shifted zero a h = record {
  after = a;
  run = shift_right-zero a;
  size = refl;
  moved = λ k l. absurd (omega arith);
  rest = λ k l. refl;
}
shift_right-Shifted (suc n) a h =
    let a' = set a (suc n) (get_or a n 0) in
    let same : length a' ≡ length a = length-set a (suc n) (get_or a n 0) in
    let r = shift_right-Shifted n a' (omega (arith, same)) in
    record {
      after = r.after;
      run = shift_right-suc n a h ∙ r.run;
      size = r.size ∙ same;
      moved = λ k l. elim (Bool-cases (k == n)) [
        | inl e ↦ ground (arith, e, r.rest (suc n), get_or-set a (suc n) (suc n) (get_or a n 0) 0)
        | inr e ↦ ground (arith, e, r.moved k, get_or-set a (suc n) k (get_or a n 0) 0)
      ];
      rest = λ k l. ground (arith, r.rest k, get_or-set a (suc n) k (get_or a n 0) 0);
    }

-- `SHIFTCSR`: 0 in front, and every other element from the place before.
pub record Opened (n : ℕ) (a : List ℕ) : Type 0 where
  pub after : List ℕ
  pub run : shift_csr n a ≡ some after
  pub size : length after ≡ length a
  pub first : get_or after 0 0 ≡ 0
  pub moved : (k : ℕ) → k < n → get_or after (suc k) 0 ≡ get_or a k 0

shift_csr-eq :
    (n : ℕ) (a b : List ℕ)
    → shift_right n a ≡ some b
    → 0 < length b
    → shift_csr n a ≡ some (set b 0 0)
unfolding shift_csr
shift_csr-eq n a b e h = rw (e, write-eq-some b 0 0 h) refl

pub shift_csr-Opened : (n : ℕ) (a : List ℕ) → n < length a → Opened n a
shift_csr-Opened n a h =
    let r = shift_right-Shifted n a h in
    record {
      after = set r.after 0 0;
      run = shift_csr-eq n a r.after r.run (omega (arith, r.size));
      size = length-set r.after 0 0 ∙ r.size;
      first = ground (arith, r.size, get_or-set r.after 0 0 0 0);
      moved = λ k l. ground (arith, r.moved k, get_or-set r.after 0 (suc k) 0 0);
    }
