-- ===== src/Csr/Verdict.antt =====
-- A check decides a predicate on its result.
use gklib.Base.{
  ℕ, zero, suc, ◌+◌, ◌≤◌, ◌<◌, ◌≡◌, refl, ap, ◌∙◌, ◌⊎◌, inl, inr, Bool, true, false, List, [], ◌∷◌,
  length, get_or, arith, Bool-cases, ◌==◌, ==_iff,
}
use gklib.Base.Outcome.{Errno}
use gklib.Csr.{Checked, passed, failed, ◌>>◌, read, refuse_if, check_each}

-- The check passes with a result that has the property, or fails where no result has it. It never
-- reads outside an array.
abbrev pub Decides : {A : Type 0} → Checked A → (A → Type 0) → Type 0
Decides {A} c P =
    ((a : A) × ((c ≡ passed a) × P a)) ⊎ ((e : Errno) × ((c ≡ failed e) × ((a : A) → P a → ⊥)))

-- A condition: the check has no result of interest.
abbrev pub DecidesOf : Checked (Unit {0}) → Type 0 → Type 0
DecidesOf c P = Decides c (λ _. P)

pub iff-Decides :
    {A : Type 0} {P Q : A → Type 0} (c : Checked A)
    → ((a : A) → P a → Q a)
    → ((a : A) → Q a → P a)
    → Decides c P
    → Decides c Q
iff-Decides c f g (inl (a, (e, p))) = inl (a, (e, f a p))
iff-Decides c f g (inr (err, (e, never))) = inr (err, (e, λ a q. never a (g a q)))

pub then-Decides :
    {A : Type 0} {P : Type 0} {Q : A → Type 0} (c : Checked (Unit {0})) (d : Checked A)
    → DecidesOf c P
    → (P → Decides d Q)
    → Decides (c >> d) (λ a. P × Q a)
then-Decides c d (inl (u, (e, p))) k = elim (k p) [
  | inl (a, (e', q)) ↦ inl (a, (ap (λ r. r >> d) e ∙ e', (p, q)))
  | inr (err, (e', never)) ↦ inr (err, (ap (λ r. r >> d) e ∙ e', λ a q. never a q.1))
]
then-Decides c d (inr (err, (e, never))) k = inr (err, (ap (λ r. r >> d) e, λ a q. never tt q.0))

pub refuse-Decides :
    {P : Type 0} (b : Bool) (e : Errno)
    → (b ≡ false → P)
    → (b ≡ true → P → ⊥)
    → DecidesOf (refuse_if b e) P
refuse-Decides false e holds fails = inl (tt, (refl, holds refl))
refuse-Decides true e holds fails = inr (e, (refl, λ _ p. fails refl p))

pub check_each-zero : (i : ℕ) (body : ℕ → Checked (Unit {0})) → check_each zero i body ≡ passed tt
unfolding check_each
check_each-zero i body = refl

check_each-suc :
    (n i : ℕ) (body : ℕ → Checked (Unit {0}))
    → check_each (suc n) i body ≡ (body i >> check_each n (suc i) body)
unfolding check_each
check_each-suc n i body = refl

pub from_first :
    {P : ℕ → Type 0} (n i : ℕ)
    → P i
    → ((k : ℕ) → suc i ≤ k → k < suc i + n → P k)
    → (k : ℕ) → i ≤ k
    → k < i + suc n
    → P k
from_first {P} n i p rest k l m = elim (Bool-cases (k == i)) [
  | inl e ↦ let same : k ≡ i = (==_iff k i).0 e in rw same p
  | inr e ↦ rest k (ground arith) (omega arith)
]

-- A loop decides that each step passes.
pub each-Decides :
    {P : ℕ → Type 0} (body : ℕ → Checked (Unit {0})) (n i : ℕ)
    → ((k : ℕ) → i ≤ k → k < i + n → DecidesOf (body k) (P k))
    → DecidesOf (check_each n i body) ((k : ℕ) → i ≤ k → k < i + n → P k)
each-Decides body zero i d = inl (tt, (check_each-zero i body, λ k l m. absurd (omega arith)))
each-Decides {P} body (suc n) i d =
    let both =
      then-Decides (body i) (check_each n (suc i) body) (d i (omega arith) (omega arith))
        (λ _. each-Decides {P = P} body n (suc i) (λ k l m. d k (omega arith) (omega arith))) in
    rw (check_each-suc n i body) (
      iff-Decides (body i >> check_each n (suc i) body) (λ _ p k l m. from_first n i p.0 p.1 k l m)
        (λ _ p. (p i (omega arith) (omega arith), λ k l m. p k (omega arith) (omega arith))) both)

pub read-passed :
    {A : Type 0} (a : List A) (i : ℕ) (d : A) → i < length a → read a i ≡ passed (get_or a i d)
read-passed [] i d h = absurd (omega arith)
read-passed (x ∷ a) zero d h = refl
read-passed (x ∷ a) (suc i) d h = read-passed a i d (omega arith)
