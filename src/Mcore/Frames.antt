-- ===== src/Mcore/Frames.antt =====
-- The records above the last mark, as `gk_mcorePop` takes them off.
use gklib.Base.{ℕ, ◌+◌, ◌^◌, ◌<◌, ◌≡◌, ◌≢◌, refl, sym, none, List, [], ◌∷◌, arith, not-ltb}
use gklib.Base.Outcome.{ok}
use gklib.Mcore.{
  MopType, mopt_mark, mopt_core, mopt_heap, mopt_other, Pointer, Mop, Mcore, Heap, minus, pop_loop,
  pop,
}
use gklib.Mcore.State.{core_of, core_bytes, heap_of, heap_bytes, Known, IsMcore}

-- The records below the last mark.
abbrev pub unframe_at : MopType → List Mop → List Mop → List Mop
unframe_at mopt_mark ms rest = ms
unframe_at mopt_core ms rest = rest
unframe_at mopt_heap ms rest = rest
unframe_at mopt_other ms rest = rest

abbrev pub unframe : List Mop → List Mop
unframe [] = []
unframe (m ∷ ms) = unframe_at m.kind ms (unframe ms)

-- An mcore whose accounts are those of the records `ms`.
abbrev pub settled : Mcore → List Mop → Mcore
settled c ms = record c {
  corecpos = core_bytes ms;
  cur_callocs = core_bytes ms;
  cur_hallocs = heap_bytes ms;
}

abbrev pub popped : Mcore → List Mop → Mcore
popped c ms = settled (record c { mops = ms }) ms

minus-head : (n rest : ℕ) → n + rest < 2 ^ 64 → minus (n + rest) n ≡ rest
minus-head n rest h = omega arith

from_zero : (n : ℕ) → 0 + n ≡ n
from_zero n = omega arith

pop_one :
    (h : Heap) (kind : MopType) (n : ℕ) (p : Pointer) (ms : List Mop) (c : Mcore)
    → kind ≢ mopt_other
    → core_of kind n + core_bytes ms < 2 ^ 64
    → heap_of kind n + heap_bytes ms < 2 ^ 64
    → h.free p ≡ none
    → pop_loop h ms (settled c ms) ≡ ok tt (popped c (unframe ms))
    → pop_loop h
        (record { kind = kind; nbytes = n; ptr = p } ∷ ms)
        (settled c (record { kind = kind; nbytes = n; ptr = p } ∷ ms))
      ≡ ok tt (popped c (unframe_at kind ms (unframe ms)))
unfolding pop_loop
pop_one h mopt_mark n p ms c known a b free i =
    rw (from_zero (core_bytes ms), from_zero (heap_bytes ms)) refl
pop_one h mopt_core n p ms c known a b free i =
    rw
      (
        not-ltb (n + core_bytes ms) n (omega arith),
        minus-head n (core_bytes ms) a,
        from_zero (heap_bytes ms),
      )
      i
pop_one h mopt_heap n p ms c known a b free i =
    rw (free, pop_loop, minus-head n (heap_bytes ms) b, from_zero (core_bytes ms)) i
pop_one h mopt_other n p ms c known a b free i = absurd (known refl)

pop_loop-nil : (h : Heap) (c : Mcore) → pop_loop h [] (settled c []) ≡ ok tt (popped c [])
unfolding pop_loop
pop_loop-nil h c = refl

pop_loop-settled :
    (h : Heap) (ms : List Mop) (c : Mcore)
    → Known ms
    → core_bytes ms < 2 ^ 64
    → heap_bytes ms < 2 ^ 64
    → ((p : Pointer) → h.free p ≡ none)
    → pop_loop h ms (settled c ms) ≡ ok tt (popped c (unframe ms))
pop_loop-settled h [] c known a b free = pop_loop-nil h c
pop_loop-settled h (m ∷ ms) c (k, ks) a b free =
    pop_one h m.kind m.nbytes m.ptr ms c k a b (free m.ptr)
      (pop_loop-settled h ms c ks (omega arith) (omega arith) free)

settled_self : (c : Mcore) → IsMcore c → settled c c.mops ≡ c
settled_self c w =
    rw (sym w.position, sym w.heap_current) (ground (arith, w.position, w.core_current))

-- `gk_mcorePop` of a well-formed mcore, where every block is given back, takes off exactly the
-- records up to the last mark, and leaves the free position and the accounts of the records below.
pub pop-Restores :
    (h : Heap) (c : Mcore)
    → IsMcore c
    → ((p : Pointer) → h.free p ≡ none)
    → pop h c ≡ ok tt (popped c (unframe c.mops))
unfolding pop
pop-Restores h c w free = rw (sym (settled_self c w)) (
    pop_loop-settled h c.mops c w.known (omega (arith, w.position, w.inside, w.small))
      (omega (arith, w.heap_current, w.counted)) free)
