-- ===== src/Mcore/Session.antt =====
-- Sequences of calls on an mcore inside a frame.
use gklib.Base.{ℕ, arith, ◌≡◌, refl, sym, ap, ◌∙◌, inl, inr, none, ◌∷◌}
use gklib.Base.Outcome.{Signal, Errno, ok, raised}
use gklib.Mcore.{Call, Pointer, Mcore, Heap, push, malloc, pop}
use gklib.Mcore.State.{core_bytes, heap_bytes, IsMcore}
use mathlib.Core.Path.{subst}
use gklib.Mcore.Malloc.{Served, Refused, malloc-Ends}
use gklib.Mcore.Frames.{unframe, popped, pop-Restores}
use gklib.Mcore.Bracket.{Marked, push-Ends, popped-IsMcore}

-- Every block is given back without an error.
abbrev pub Frees : Heap → Type 0
Frees h = (p : Pointer) → h.free p ≡ none

-- The calls that a function makes between its push and its pop: allocations, granted or refused, and
-- calls of functions that open and close a frame of their own. The heap may answer each differently.
pub data Runs : Mcore → Mcore → Type 0 where
  done : {c : Mcore} → Runs c c
  allocated :
      {c c' d : Mcore} (h : Heap) (n : ℕ) (p : Pointer)
      → malloc h c n ≡ ok p c'
      → Runs c' d
      → Runs c d
  refused :
      {c c' d : Mcore} (h : Heap) (n : ℕ) (signal : Signal) (errno : Errno)
      → malloc h c n ≡ raised signal errno c'
      → Runs c' d
      → Runs c d
  nested :
      {c opened filled closed d : Mcore} (h k : Heap)
      → push h c ≡ ok tt opened
      → Runs opened filled
      → Frees k
      → pop k filled ≡ ok tt closed
      → Runs closed d
      → Runs c d

-- A well-formed mcore with the same records below the last mark.
record Keeps (c d : Mcore) : Type 0 where
  whole : IsMcore d
  below : unframe d.mops ≡ unframe c.mops

-- A well-formed mcore with the same records, and so the same accounts.
pub record Restored (c d : Mcore) : Type 0 where
  pub whole : IsMcore d
  pub mops : d.mops ≡ c.mops
  pub corecpos : d.corecpos ≡ c.corecpos
  pub cur_callocs : d.cur_callocs ≡ c.cur_callocs
  pub cur_hallocs : d.cur_hallocs ≡ c.cur_hallocs

served-Keeps : (h : Heap) (c c' : Mcore) (n : ℕ) (p : Pointer) → Served h c n p c' → Keeps c c'
served-Keeps h c c' n p s = record {
  whole = s.whole;
  below = ap unframe s.on_top ∙ elim s.origin [
    | inl o ↦ ap (λ m. unframe (m ∷ c.mops)) o.0
    | inr o ↦ ap (λ m. unframe (m ∷ c.mops)) o.1.1.0
  ];
}

refused-Keeps : (c c' : Mcore) → Refused c c' → Keeps c c'
refused-Keeps c c' r = record { whole = r.0; below = ap (λ x. unframe x.mops) r.1.1 }

same_records : (c d : Mcore) → IsMcore c → IsMcore d → d.mops ≡ c.mops → Restored c d
same_records c d w v e = record {
  whole = v;
  mops = e;
  corecpos = v.position ∙ ap core_bytes e ∙ sym w.position;
  cur_callocs = v.core_current ∙ ap core_bytes e ∙ sym w.core_current;
  cur_hallocs = v.heap_current ∙ ap heap_bytes e ∙ sym w.heap_current;
}

popped-Restored :
    (c opened filled : Mcore)
    → IsMcore c
    → Marked c opened
    → Keeps opened filled
    → Restored c (popped filled (unframe filled.mops))
popped-Restored c opened filled w m k =
    same_records c (popped filled (unframe filled.mops)) w (popped-IsMcore filled k.whole)
      (k.below ∙ ap unframe m.1.0)

ok-state : {A : Type 0} (a b : A) (c d : Mcore) → ◌≡◌ {A = Call A} (ok a c) (ok b d) → c ≡ d
ok-state a b c d e = grind arith

closed-Restored :
    (k : Heap) (c opened filled closed : Mcore)
    → IsMcore c
    → Marked c opened
    → Keeps opened filled
    → Frees k
    → pop k filled ≡ ok tt closed
    → Restored c closed
closed-Restored k c opened filled closed w m kept free e =
    let same : popped filled (unframe filled.mops) ≡ closed =
      ok-state {A = Unit {0}} tt tt _ _ (sym (pop-Restores k filled kept.whole free) ∙ e) in
    subst (λ d. Restored c d) same (popped-Restored c opened filled w m kept)

after : {c c' d : Mcore} → Keeps c c' → Keeps c' d → Keeps c d
after k l = record { whole = l.whole; below = l.below ∙ k.below }

push-Marked : (h : Heap) (c c' : Mcore) → IsMcore c → push h c ≡ ok tt c' → Marked c c'
push-Marked h c c' w e = rw e at (push-Ends h c w)

run-Keeps : {c d : Mcore} → Runs c d → IsMcore c → Keeps c d
run-Keeps done w = record { whole = w; below = refl }
run-Keeps (allocated {c = c} {c' = c'} h n p e r) w =
    let k = served-Keeps h c c' n p (rw e at (malloc-Ends h c n w)) in after k (run-Keeps r k.whole)
run-Keeps (refused {c = c} {c' = c'} h n signal errno e r) w =
    let k = refused-Keeps c c' (rw e at (malloc-Ends h c n w)).0 in after k (run-Keeps r k.whole)
run-Keeps (nested {c = c} {opened = o} {filled = f} {closed = z} h k e r free p s) w =
    let m = push-Marked h c o w e in
    let back = closed-Restored k c o f z w m (run-Keeps r m.0) free p in
    after (record { whole = back.whole; below = ap unframe back.mops }) (run-Keeps s back.whole)

-- From a well-formed mcore, after a push and any calls of a function, whatever memory was granted to
-- them, a pop that gives the blocks back succeeds, and leaves the records, the free position of the
-- core and both current totals as they were before the push.
pub push-pop-Restored :
    (h k : Heap) {c opened filled : Mcore}
    → IsMcore c
    → push h c ≡ ok tt opened
    → Runs opened filled
    → Frees k
    → (d : Mcore) × ((pop k filled ≡ ok tt d) × Restored c d)
push-pop-Restored h k {c} {opened} {filled} w e r free =
    let m = push-Marked h c opened w e in
    let kept = run-Keeps r m.0 in
    (
      popped filled (unframe filled.mops),
      (pop-Restores k filled kept.whole free, popped-Restored c opened filled w m kept),
    )
