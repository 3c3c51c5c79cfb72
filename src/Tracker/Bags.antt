-- ===== src/Tracker/Bags.antt =====
-- What the lookup finds, and what it does to the records to replace one or take one out.
use gklib.Base.{
  ℕ, zero, suc, ◌+◌, ◌≡◌, ◌≢◌, refl, sym, ap, ◌∙◌, inl, inr, Bool, true, false, ==_iff, none, some,
  List, [], ◌∷◌, length, get_elem?, set, tally, arith, num, if◌then◌else◌, Bool-cases, length-set,
}
use mathlib.Core.Path.{subst}
use gklib.Mcore.{
  MopType, mopt_mark, mopt_core, mopt_heap, mopt_other, Pointer, null, in_core, on_heap, Mop, same,
  take_out,
}
use gklib.Mcore.State.{heap_of, heap_bytes}
use gklib.Tracker.{find_quiet}

same-eq : (q p : Pointer) → same q p ≡ true → q ≡ p
same-eq null null e = refl
same-eq null (in_core b) e = absurd (ground arith)
same-eq null (on_heap b) e = absurd (ground arith)
same-eq (in_core a) null e = absurd (ground arith)
same-eq (in_core a) (in_core b) e = ap in_core ((==_iff a b).0 e)
same-eq (in_core a) (on_heap b) e = absurd (ground arith)
same-eq (on_heap a) null e = absurd (ground arith)
same-eq (on_heap a) (in_core b) e = absurd (ground arith)
same-eq (on_heap a) (on_heap b) e = ap on_heap ((==_iff a b).0 e)

same_refl : (p : Pointer) → same p p ≡ true
same_refl null = refl
same_refl (in_core a) = ground arith
same_refl (on_heap a) = ground arith

same-apart : (q p : Pointer) → same q p ≡ false → q ≢ p
same-apart q p e h = let t : same q p ≡ true = rw h (same_refl p) in absurd (ground (arith, e, t))

-- A record of a kind in front of records with the property `rest`: those below a mark do not count.
abbrev pub AbsentAt : MopType → Type 0 → Type 0 → Type 0
AbsentAt mopt_mark other rest = Unit {0}
AbsentAt mopt_heap other rest = other × rest
AbsentAt mopt_core other rest = rest
AbsentAt mopt_other other rest = rest

-- No heap record above the last mark is of the pointer.
abbrev pub Absent : Pointer → List Mop → Type 0
Absent p [] = Unit {0}
Absent p (m ∷ ms) = AbsentAt m.kind (m.ptr ≢ p) (Absent p ms)

-- The record at a depth is a heap record of the pointer.
pub record Found (p : Pointer) (ms : List Mop) (i : ℕ) : Type 0 where
  pub mop : Mop
  pub at : get_elem? ms i ≡ some mop
  pub kind : mop.kind ≡ mopt_heap
  pub ptr : mop.ptr ≡ p

find-mark :
    (p : Pointer) (k : ℕ) (m : Mop) (ms : List Mop)
    → m.kind ≡ mopt_mark
    → find_quiet p k (m ∷ ms) ≡ none
unfolding find_quiet
find-mark p k m ms e = rw (e, find_quiet) refl

find-core :
    (p : Pointer) (k : ℕ) (m : Mop) (ms : List Mop)
    → m.kind ≡ mopt_core
    → find_quiet p k (m ∷ ms) ≡ find_quiet p (suc k) ms
unfolding find_quiet
find-core p k m ms e = rw (e, find_quiet) refl

find-other :
    (p : Pointer) (k : ℕ) (m : Mop) (ms : List Mop)
    → m.kind ≡ mopt_other
    → find_quiet p k (m ∷ ms) ≡ find_quiet p (suc k) ms
unfolding find_quiet
find-other p k m ms e = rw (e, find_quiet) refl

find-heap :
    (p : Pointer) (k : ℕ) (m : Mop) (ms : List Mop)
    → m.kind ≡ mopt_heap
    → find_quiet p k (m ∷ ms) ≡ (if same m.ptr p then some k else find_quiet p (suc k) ms)
unfolding find_quiet
find-heap p k m ms e = rw (e, find_quiet) refl

-- A depth counted from `k` on.
abbrev pub FoundFrom : Pointer → ℕ → List Mop → ℕ → Type 0
FoundFrom p k ms j = (i : ℕ) × ((j ≡ k + i) × Found p ms i)

deeper :
    (p : Pointer) (k : ℕ) (m : Mop) (ms : List Mop) (j : ℕ)
    → FoundFrom p (suc k) ms j
    → FoundFrom p k (m ∷ ms) j
deeper p k m ms j (i, (e, f)) =
    (suc i, (omega (arith, e), record { mop = f.mop; at = f.at; kind = f.kind; ptr = f.ptr }))

some-inj : (a b : ℕ) → some a ≡ some b → a ≡ b
some-inj a b e = grind arith

found_here :
    (p : Pointer) (k : ℕ) (kind : MopType) (m : Mop) (ms : List Mop) (j : ℕ)
    → m.kind ≡ kind
    → (find_quiet p (suc k) ms ≡ some j → FoundFrom p (suc k) ms j)
    → find_quiet p k (m ∷ ms) ≡ some j
    → FoundFrom p k (m ∷ ms) j
found_here p k mopt_mark m ms j e i h = absurd (ground (arith, find-mark p k m ms e))
found_here p k mopt_core m ms j e i h = deeper p k m ms j (i (sym (find-core p k m ms e) ∙ h))
found_here p k mopt_other m ms j e i h = deeper p k m ms j (i (sym (find-other p k m ms e) ∙ h))
found_here p k mopt_heap m ms j e i h = elim (Bool-cases (same m.ptr p)) [
  | inl s ↦
      let here : some k ≡ some j = rw s at (sym (find-heap p k m ms e) ∙ h) in
      (
        zero,
        (
          omega (arith, some-inj k j here),
          record { mop = m; at = refl; kind = e; ptr = same-eq m.ptr p s },
        ),
      )
  | inr s ↦ deeper p k m ms j (i (rw s at (sym (find-heap p k m ms e) ∙ h)))
]

find_quiet-nil : (p : Pointer) (k : ℕ) → find_quiet p k [] ≡ none
unfolding find_quiet
find_quiet-nil p k = refl

find_quiet-Found :
    (p : Pointer) (k : ℕ) (ms : List Mop) (j : ℕ) → find_quiet p k ms ≡ some j → FoundFrom p k ms j
find_quiet-Found p k [] j h = absurd (ground (arith, find_quiet-nil p k))
find_quiet-Found p k (m ∷ ms) j h =
    found_here p k m.kind m ms j refl (find_quiet-Found p (suc k) ms j) h

Absent-here :
    (p : Pointer) (k : ℕ) (kind : MopType) (m : Mop) (ms : List Mop)
    → m.kind ≡ kind
    → (find_quiet p (suc k) ms ≡ none → Absent p ms)
    → find_quiet p k (m ∷ ms) ≡ none
    → AbsentAt kind (m.ptr ≢ p) (Absent p ms)
Absent-here p k mopt_mark m ms e i h = tt
Absent-here p k mopt_core m ms e i h = i (sym (find-core p k m ms e) ∙ h)
Absent-here p k mopt_other m ms e i h = i (sym (find-other p k m ms e) ∙ h)
Absent-here p k mopt_heap m ms e i h = elim (Bool-cases (same m.ptr p)) [
  | inl s ↦
      let here : some k ≡ none = rw s at (sym (find-heap p k m ms e) ∙ h) in absurd (ground arith)
  | inr s ↦ (same-apart m.ptr p s, i (rw s at (sym (find-heap p k m ms e) ∙ h)))
]

pub find_quiet-Absent :
    (p : Pointer) (k : ℕ) (ms : List Mop) → find_quiet p k ms ≡ none → Absent p ms
find_quiet-Absent p k [] h = tt
find_quiet-Absent p k (m ∷ ms) h =
    Absent-here p k m.kind m ms refl (find_quiet-Absent p (suc k) ms) h

present_here :
    (p : Pointer) (k : ℕ) (kind : MopType) (m : Mop) (ms : List Mop) (j : ℕ)
    → m.kind ≡ kind
    → (find_quiet p (suc k) ms ≡ some j → Absent p ms → ⊥)
    → find_quiet p k (m ∷ ms) ≡ some j
    → AbsentAt kind (m.ptr ≢ p) (Absent p ms)
    → ⊥
present_here p k mopt_mark m ms j e i h a = absurd (ground (arith, find-mark p k m ms e))
present_here p k mopt_core m ms j e i h a = i (sym (find-core p k m ms e) ∙ h) a
present_here p k mopt_other m ms j e i h a = i (sym (find-other p k m ms e) ∙ h) a
present_here p k mopt_heap m ms j e i h a = elim (Bool-cases (same m.ptr p)) [
  | inl s ↦ a.0 (same-eq m.ptr p s)
  | inr s ↦ i (rw s at (sym (find-heap p k m ms e) ∙ h)) a.1
]

pub find_quiet-present :
    (p : Pointer) (k : ℕ) (ms : List Mop) (j : ℕ) → find_quiet p k ms ≡ some j → Absent p ms → ⊥
find_quiet-present p k [] j h a = absurd (ground (arith, find_quiet-nil p k))
find_quiet-present p k (m ∷ ms) j h a =
    present_here p k m.kind m ms j refl (find_quiet-present p (suc k) ms j) h a

pub Found-at : (p : Pointer) (ms : List Mop) (j : ℕ) → find_quiet p 0 ms ≡ some j → Found p ms j
Found-at p ms j h =
    let r = find_quiet-Found p 0 ms j h in
    let e : r.0 ≡ j = omega (arith, r.1.0) in subst (λ x. Found p ms x) e r.1.1

pub heap_bytes-set :
    (ms : List Mop) (k : ℕ) (m x : Mop)
    → get_elem? ms k ≡ some m
    → heap_bytes (set ms k x) + heap_of m.kind m.nbytes ≡ heap_bytes ms + heap_of x.kind x.nbytes
heap_bytes-set [] k m x h = absurd (ground arith)
heap_bytes-set (y ∷ ms) zero m x h = grind arith
heap_bytes-set (y ∷ ms) (suc k) m x h = omega (arith, heap_bytes-set ms k m x h)

pub tally-set :
    (test : Mop → Bool) (ms : List Mop) (k : ℕ) (m x : Mop)
    → get_elem? ms k ≡ some m
    → tally test (set ms k x) + num (test m) ≡ tally test ms + num (test x)
tally-set test [] k m x h = absurd (ground arith)
tally-set test (y ∷ ms) zero m x h = grind arith
tally-set test (y ∷ ms) (suc k) m x h = omega (arith, tally-set test ms k m x h)

pub heap_bytes-take_out :
    (ms : List Mop) (k : ℕ) (m : Mop)
    → get_elem? ms k ≡ some m
    → heap_bytes (take_out k ms) + heap_of m.kind m.nbytes ≡ heap_bytes ms
heap_bytes-take_out [] k m h = absurd (ground arith)
heap_bytes-take_out (y ∷ ms) zero m h = grind arith
heap_bytes-take_out (y ∷ ms) (suc k) m h = omega (arith, heap_bytes-set ms k m y h)

pub tally-take_out :
    (test : Mop → Bool) (ms : List Mop) (k : ℕ) (m : Mop)
    → get_elem? ms k ≡ some m
    → tally test (take_out k ms) + num (test m) ≡ tally test ms
tally-take_out test [] k m h = absurd (ground arith)
tally-take_out test (y ∷ ms) zero m h = grind arith
tally-take_out test (y ∷ ms) (suc k) m h = omega (arith, tally-set test ms k m y h)

pub length-take_out :
    (ms : List Mop) (k : ℕ) (m : Mop)
    → get_elem? ms k ≡ some m
    → suc (length (take_out k ms)) ≡ length ms
length-take_out [] k m h = absurd (ground arith)
length-take_out (y ∷ ms) zero m h = refl
length-take_out (y ∷ ms) (suc k) m h = omega (arith, length-set ms k y)
