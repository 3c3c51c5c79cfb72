-- ===== src/Tracker/Close.antt =====
-- `gk_gkmcorePop`.
use gklib.Base.{ℕ, ◌+◌, ◌^◌, ◌<◌, ◌≡◌, ◌≢◌, refl, ap, ◌∙◌, Bool, List, [], ◌∷◌, arith}
use gklib.Base.Outcome.{ok}
use gklib.Mcore.{MopType, mopt_mark, mopt_core, mopt_heap, mopt_other, Pointer, Mop, Mcore, minus}
use gklib.Mcore.State.{heap_of, heap_bytes}
use gklib.Mcore.Frames.{unframe_at, unframe}
use gklib.Tracker.State.{IsTracker}
use gklib.Tracker.Ops.{pop_loop, pop}

-- Every record is a mark or a heap block.
abbrev pub Tracks : List Mop → Type 0
Tracks [] = Unit {0}
Tracks (m ∷ ms) = ((m.kind ≢ mopt_core) × (m.kind ≢ mopt_other)) × Tracks ms

-- The tracker with the records `ms` and their total.
abbrev pub left_with : Mcore → List Mop → Mcore
left_with c ms = record c { mops = ms; cur_hallocs = heap_bytes ms }

from_zero : (n : ℕ) → 0 + n ≡ n
from_zero n = omega arith

minus_head : (n rest : ℕ) → n + rest < 2 ^ 64 → minus (n + rest) n ≡ rest
minus_head n rest h = omega arith

pop_one :
    (exits : Bool) (kind : MopType) (n : ℕ) (p : Pointer) (ms : List Mop) (c : Mcore)
    → kind ≢ mopt_core
    → kind ≢ mopt_other
    → heap_of kind n + heap_bytes ms < 2 ^ 64
    → pop_loop exits ms (record c { cur_hallocs = heap_bytes ms })
      ≡ ok tt (left_with c (unframe ms))
    → pop_loop exits
        (record { kind = kind; nbytes = n; ptr = p } ∷ ms)
        (record c { cur_hallocs = heap_of kind n + heap_bytes ms })
      ≡ ok tt (left_with c (unframe_at kind ms (unframe ms)))
unfolding pop_loop
pop_one exits mopt_mark n p ms c a b h i = rw (from_zero (heap_bytes ms)) refl
pop_one exits mopt_heap n p ms c a b h i = rw (minus_head n (heap_bytes ms) h) i
pop_one exits mopt_core n p ms c a b h i = absurd (a refl)
pop_one exits mopt_other n p ms c a b h i = absurd (b refl)

pop_loop-nil :
    (exits : Bool) (c : Mcore)
    → pop_loop exits [] (record c { cur_hallocs = 0 }) ≡ ok tt (left_with c [])
unfolding pop_loop
pop_loop-nil exits c = refl

pop_loop-left :
    (exits : Bool) (ms : List Mop) (c : Mcore)
    → Tracks ms
    → heap_bytes ms < 2 ^ 64
    → pop_loop exits ms (record c { cur_hallocs = heap_bytes ms })
      ≡ ok tt (left_with c (unframe ms))
pop_loop-left exits [] c t h = pop_loop-nil exits c
pop_loop-left exits (m ∷ ms) c ((a, b), t) h =
    pop_one exits m.kind m.nbytes m.ptr ms c a b h (pop_loop-left exits ms c t (omega arith))

-- `gk_gkmcorePop` of a well-formed tracker of marks and heap blocks takes off exactly the records up
-- to the last mark, and leaves the total of the records below.
pub pop-Left :
    (exits : Bool) (c : Mcore)
    → IsTracker c
    → Tracks c.mops
    → pop exits c ≡ ok tt (left_with c (unframe c.mops))
unfolding pop
pop-Left exits c w t =
    ap (pop_loop exits c.mops) (ap (λ x. record c { cur_hallocs = x }) w.current)
    ∙ pop_loop-left exits c.mops c t (omega (arith, w.current, w.counted))
