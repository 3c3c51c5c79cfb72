-- ===== src/Recovery/Makes.antt =====
-- `gk_sigtrap` and `gk_SetSignalHandlers` on the stack of bindings.
use gklib.Base.{
  ℕ, suc, ◌<◌, ◌≡◌, refl, ap, ◌∙◌, inl, inr, Bool, true, false, Option, ◌∷◌, leb, set, arith,
  length-set, Bool-cases,
}
use gklib.Base.Arrays.{get_or-set}
use gklib.Base.Outcome.{Errno}
use gklib.Recovery.{max_jbufs, Thread, sigtrap, set_signal_handlers}
use gklib.Recovery.Stack.{
  frame, legacy, with_legacy, below, bindings, IsThread, below-set, below-on, count-bindings,
  legacy-bindings,
}
use gklib.Recovery.Calls.{trap, set_handlers, run, Refines, changed}

-- The stack under a new frame.
framed :
    (t : Thread)
    → IsThread t
    → t.depth < max_jbufs
    → with_legacy t.legacy_active t.legacy_depth t.legacy_mask (suc t.depth) (
        below
          (set t.masks t.depth t.mask)
          t.legacy_active
          t.legacy_depth
          t.legacy_mask
          (suc t.depth))
      ≡ frame t.mask ∷ bindings t
framed t w h = ground (
  arith,
  w.legacy,
  w.masks,
  get_or-set t.masks t.depth t.depth t.mask 0,
  below-set t.masks t.legacy_active t.legacy_depth t.legacy_mask t.depth t.depth t.mask,
)

abbrev trapped : Thread → Thread
trapped t = record t {
  masks = set t.masks t.depth t.mask;
  active = set t.active t.depth true;
  depth = suc t.depth;
}

trapped-IsThread : (t : Thread) → IsThread t → t.depth < max_jbufs → IsThread (trapped t)
trapped-IsThread t w h = record {
  depth = omega arith;
  masks = length-set t.masks t.depth t.mask ∙ w.masks;
  frames = length-set t.active t.depth true ∙ w.frames;
  active = λ k l. ground (arith, w.frames, w.active k, get_or-set t.active t.depth k true false);
  legacy = λ e. omega (arith, w.legacy e);
}

room_for : (n : ℕ) → leb max_jbufs n ≡ false → n < max_jbufs
room_for n e = ground arith

pub trap-Refines : (status : Option Errno) (t : Thread) → IsThread t → Refines trap status t
unfolding run sigtrap
trap-Refines status t w = elim (Bool-cases (leb max_jbufs t.depth)) [
  | inl full ↦ rw (count-bindings t, full) (w, refl)
  | inr room ↦
      let h = room_for t.depth room in
      rw (count-bindings t, room)
        (changed status t (trapped t) (record { mask = t.mask; stack = frame t.mask ∷ bindings t })
          w (trapped-IsThread t w h) (ap (λ b. record { mask = t.mask; stack = b }) (framed t w h)))
]

abbrev armed : Thread → Thread
armed t = record t { legacy_mask = t.mask; legacy_depth = t.depth; legacy_active = true }

-- The stack under a legacy binding made at its top.
armed_stack :
    (t : Thread)
    → bindings (armed t) ≡ legacy t.mask ∷ bindings (record t { legacy_active = false })
armed_stack t = ground (arith, below-on t.masks t.depth t.mask t.legacy_depth t.legacy_mask t.depth)

armed-IsThread : (t : Thread) → IsThread t → IsThread (armed t)
armed-IsThread t w = record {
  depth = w.depth;
  masks = w.masks;
  frames = w.frames;
  active = w.active;
  legacy = λ e. omega arith;
}

set_by :
    (on : Bool) (status : Option Errno) (t : Thread)
    → IsThread (record t { legacy_active = on })
    → Refines set_handlers status (record t { legacy_active = on })
unfolding run set_signal_handlers
set_by true status t w = rw (legacy-bindings (record t { legacy_active = true }) w) (w, refl)
set_by false status t w =
    let off = record t { legacy_active = false } in
    rw (legacy-bindings off w) (
      changed status off (armed off)
        (record { mask = t.mask; stack = legacy t.mask ∷ bindings off }) w (armed-IsThread off w)
        (ap (λ b. record { mask = t.mask; stack = b }) (armed_stack off)))

pub set-Refines : (status : Option Errno) (t : Thread) → IsThread t → Refines set_handlers status t
set-Refines status t w = set_by t.legacy_active status t w
