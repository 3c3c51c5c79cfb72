-- ===== src/Recovery/Ends.antt =====
-- `gk_UnsetSignalHandlers` and `gk_siguntrap` on the stack of bindings.
use gklib.Base.{
  ℕ, zero, suc, ◌≤◌, ◌≡◌, refl, sym, ap, ◌∙◌, inl, inr, Bool, true, false, ◌&&◌, Option, some, List,
  ◌∷◌, leb, ◌==◌, get_or, set, arith, length-set, Bool-cases,
}
use gklib.Base.Arrays.{get_or-set}
use gklib.Base.Outcome.{Errno, einval}
use gklib.Recovery.{max_jbufs, Thread, unless, siguntrap, unset_signal_handlers}
use gklib.Recovery.Stack.{Binding, legacy, with_legacy, below, bindings, IsThread, below-on}
use gklib.Recovery.Calls.{
  untrap, unset_handlers, run, View, view, unless_view, end_frame, end_legacy, promised, Refines,
  changed, by_replies,
}

-- The thread with both parts that the ends of bindings look at in view.
abbrev with_parts : Bool → ℕ → Thread → Thread
with_parts on n t = record t { legacy_active = on; depth = n }

-- Whether the legacy binding is the innermost.
pub legacy_top :
    (t : Thread)
    → t.legacy_active ≡ true
    → t.legacy_depth ≡ t.depth
    → bindings t ≡ legacy t.legacy_mask ∷ below t.masks true t.legacy_depth t.legacy_mask t.depth
legacy_top t on e = ground arith

pub frame_top :
    (t : Thread)
    → (t.legacy_active && t.legacy_depth == t.depth) ≡ false
    → bindings t ≡ below t.masks t.legacy_active t.legacy_depth t.legacy_mask t.depth
frame_top t e = rw e refl

abbrev released : Thread → Thread
released t = record t { mask = t.legacy_mask; legacy_active = false; legacy_depth = 0 }

released-IsThread : (t : Thread) → IsThread t → IsThread (released t)
released-IsThread t w = record {
  depth = w.depth;
  masks = w.masks;
  frames = w.frames;
  active = w.active;
  legacy = λ e. cc;
}

-- The stack that the end of the legacy binding leaves.
abbrev below_legacy : Thread → List Binding
below_legacy t = below t.masks true t.legacy_depth t.legacy_mask t.depth

unset-top :
    (t : Thread) (status : Option Errno)
    → t.legacy_active ≡ true
    → t.legacy_depth ≡ t.depth
    → (run unset_handlers status t ≡ unless status (released t) t)
      × (promised unset_handlers status (view t)
          ≡ unless_view status (record { mask = t.legacy_mask; stack = below_legacy t }) (view t))
unfolding run unset_signal_handlers
unset-top t status on e =
    (ground (arith, on, e), ap (end_legacy status (view t)) (legacy_top t on e))

-- Without the legacy binding on top no frame is one.
unset_below :
    (masks : List ℕ) (on : Bool) (d m n : ℕ) (status : Option Errno) (v : View)
    → end_legacy status v (below masks on d m n) ≡ (v, some einval)
unset_below masks on d m zero status v = refl
unset_below masks on d m (suc n) status v = refl

unset-other :
    (t : Thread) (status : Option Errno)
    → (t.legacy_active && t.legacy_depth == t.depth) ≡ false
    → (run unset_handlers status t ≡ (t, some einval))
      × (promised unset_handlers status (view t) ≡ (view t, some einval))
unfolding run unset_signal_handlers
unset-other t status e = (
  ground (arith, e),
  ap (end_legacy status (view t)) (frame_top t e)
      ∙ unset_below t.masks t.legacy_active t.legacy_depth t.legacy_mask t.depth status (view t),
)

pub both : (a b : Bool) → (a && b) ≡ true → (a ≡ true) × (b ≡ true)
both a b e = ground arith

pub equal : (a b : ℕ) → (a == b) ≡ true → a ≡ b
equal a b e = ground arith

after_legacy :
    (t : Thread)
    → t.legacy_active ≡ true
    → t.legacy_depth ≡ t.depth
    → bindings (released t) ≡ below_legacy t
after_legacy t on e =
    sym (below-on t.masks t.legacy_depth t.legacy_mask 0 t.legacy_mask t.depth (omega (arith, e)))

pub unset-Refines :
    (status : Option Errno) (t : Thread) → IsThread t → Refines unset_handlers status t
unset-Refines status t w = elim (Bool-cases (t.legacy_active && t.legacy_depth == t.depth)) [
  | inl top ↦
      let on = (both t.legacy_active (t.legacy_depth == t.depth) top).0 in
      let e =
        equal t.legacy_depth t.depth (both t.legacy_active (t.legacy_depth == t.depth) top).1 in
      let r = unset-top t status on e in
      let v : View = record { mask = t.legacy_mask; stack = below_legacy t } in
      by_replies unset_handlers status t (unless status (released t) t)
        (unless_view status v (view t)) r.0 r.1
        (changed status t (released t) v w (released-IsThread t w)
          (ap (λ b. record { mask = t.legacy_mask; stack = b }) (after_legacy t on e)))
  | inr other ↦
      let r = unset-other t status other in
      by_replies unset_handlers status t (t, some einval) (view t, some einval) r.0 r.1 (w, refl)
]

abbrev untrapped : ℕ → Thread → Thread
untrapped n t = record t { mask = get_or t.masks n 0; active = set t.active n false; depth = n }

untrapped-IsThread :
    (n : ℕ) (t : Thread)
    → IsThread (record t { depth = suc n })
    → (t.legacy_active && leb (suc n) t.legacy_depth) ≡ false
    → IsThread (untrapped n t)
untrapped-IsThread n t w e = record {
  depth = omega (arith, w.depth);
  masks = w.masks;
  frames = length-set t.active n false ∙ w.frames;
  active =
      λ k l. ground (arith, w.frames, w.depth, w.active k, get_or-set t.active n k false false);
  legacy = λ on. ground (arith, on, e);
}

untrap_none :
    (t : Thread) (status : Option Errno)
    → t.depth ≡ 0
    → (run untrap status t ≡ (t, some einval))
      × (promised untrap status (view t) ≡ (view t, some einval))
unfolding run siguntrap
untrap_none t status e = (ground (arith, e), ground (arith, e))

untrap-legacy :
    (t : Thread) (status : Option Errno)
    → t.legacy_active ≡ true
    → t.legacy_depth ≡ t.depth
    → (run untrap status t ≡ (t, some einval))
      × (promised untrap status (view t) ≡ (view t, some einval))
unfolding run siguntrap
untrap-legacy t status on e =
    (ground (arith, on, e), ap (end_frame status (view t)) (legacy_top t on e))

untrap-frame :
    (t : Thread) (n : ℕ) (status : Option Errno)
    → suc n ≤ max_jbufs
    → get_or t.active n false ≡ true
    → (t.legacy_active && leb (suc n) t.legacy_depth) ≡ false
    → run untrap status (record t { depth = suc n })
      ≡ unless status (untrapped n t) (record t { depth = suc n })
unfolding run siguntrap
untrap-frame t n status h a e = ground (arith, h, a, e)

pub no_legacy_top :
    (on : Bool) (d n : ℕ) → (on && leb (suc n) d) ≡ false → (on && d == suc n) ≡ false
no_legacy_top on d n e = ground arith

pub untrap_by :
    (n : ℕ) (status : Option Errno) (t : Thread)
    → IsThread (record t { depth = n })
    → Refines untrap status (record t { depth = n })
untrap_by zero status t w =
    let x = record t { depth = 0 } in
    let r = untrap_none x status refl in
    by_replies untrap status x (x, some einval) (view x, some einval) r.0 r.1 (w, refl)
untrap_by (suc n) status t w =
    let x = record t { depth = suc n } in
    elim (Bool-cases (t.legacy_active && leb (suc n) t.legacy_depth)) [
      | inl e ↦
          let on = (both t.legacy_active (leb (suc n) t.legacy_depth) e).0 in
          let r = untrap-legacy x status on (ground (arith, e, w.legacy on)) in
          by_replies untrap status x (x, some einval) (view x, some einval) r.0 r.1 (w, refl)
      | inr e ↦
          let v : View = record {
            mask = get_or t.masks n 0;
            stack =
                with_legacy t.legacy_active t.legacy_depth t.legacy_mask n
                  (below t.masks t.legacy_active t.legacy_depth t.legacy_mask n);
          } in
          by_replies untrap status x (unless status (untrapped n t) x)
            (unless_view status v (view x))
            (untrap-frame t n status w.depth (w.active n (omega arith)) e)
            (ap (end_frame status (view x))
              (frame_top x (no_legacy_top t.legacy_active t.legacy_depth n e)))
            (changed status x (untrapped n t) v w (untrapped-IsThread n t w e) refl)
    ]
