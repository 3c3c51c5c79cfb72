-- ===== src/Recovery/Report.antt =====
-- `gk_errexit` on the stack of bindings.
use gklib.Base.{
  ℕ, zero, suc, ◌≤◌, ◌≡◌, refl, sym, ◌∙◌, ap, inl, inr, Bool, true, false, ◌&&◌, ◌||◌, Option, List,
  [], ◌∷◌, leb, ◌==◌, get_or, arith, Bool-cases,
}
use gklib.Base.Outcome.{Signal, Errno}
use gklib.Recovery.{
  max_jbufs, Thread, Control, to_frame, to_legacy, to_host, jump, top_active, non_local_exit,
  sigthrow, is_synchronous, errexit,
}
use gklib.Recovery.Stack.{Binding, frame, legacy, bindings, IsThread, count_frames, count-bindings}
use gklib.Recovery.Ends.{legacy_top, frame_top, no_legacy_top, both, equal}

-- The binding that an error is for, and the host where there is none. A frame is numbered by the
-- frames below it.
abbrev pub handler : Option Errno → Thread → List Binding → Thread × Control
handler status t [] = (t, to_host)
handler status t (frame m ∷ rest) = jump status (to_frame (count_frames rest)) m t
handler status t (legacy m ∷ rest) = jump status to_legacy m t

errexit-throws :
    (status : Option Errno) (signal : Signal) (t : Thread)
    → is_synchronous signal ≡ true
    → (t.legacy_active || (leb t.depth max_jbufs && top_active t)) ≡ true
    → errexit true status signal t ≡ sigthrow status t
unfolding errexit
errexit-throws status signal t e f = rw (e, f) refl

errexit-host :
    (status : Option Errno) (signal : Signal) (t : Thread)
    → (t.legacy_active || (leb t.depth max_jbufs && top_active t)) ≡ false
    → errexit true status signal t ≡ (t, to_host)
unfolding errexit
errexit-host status signal t f = ground (arith, f)

sigthrow-legacy :
    (status : Option Errno) (t : Thread)
    → (t.legacy_active && leb t.depth t.legacy_depth) ≡ true
    → sigthrow status t ≡ jump status to_legacy t.legacy_mask t
unfolding sigthrow non_local_exit
sigthrow-legacy status t e = rw e refl

sigthrow-frame :
    (status : Option Errno) (t : Thread) (n : ℕ)
    → suc n ≤ max_jbufs
    → get_or t.active n false ≡ true
    → (t.legacy_active && leb (suc n) t.legacy_depth) ≡ false
    → sigthrow status (record t { depth = suc n })
      ≡ jump status (to_frame n) (get_or t.masks n 0) (record t { depth = suc n })
unfolding sigthrow
sigthrow-frame status t n h a e = ground (arith, h, a, e)

-- A legacy binding on top, in the terms of both.
legacy_thrown :
    (status : Option Errno) (signal : Signal) (t : Thread)
    → is_synchronous signal ≡ true
    → t.legacy_active ≡ true
    → t.legacy_depth ≡ t.depth
    → errexit true status signal t ≡ handler status t (bindings t)
legacy_thrown status signal t s on e =
    errexit-throws status signal t s (ground (arith, on))
    ∙ sigthrow-legacy status t (ground (arith, on, e))
    ∙ ap (handler status t) (sym (legacy_top t on e))

no_legacy : (on : Bool) (d : ℕ) → (on ≡ true → d ≤ 0) → (on && d == 0) ≡ false → on ≡ false
no_legacy on d h e = ground arith

thrown_at :
    (n : ℕ) (status : Option Errno) (signal : Signal) (t : Thread)
    → is_synchronous signal ≡ true
    → IsThread (record t { depth = n })
    → errexit true status signal (record t { depth = n })
      ≡ handler status (record t { depth = n }) (bindings (record t { depth = n }))
thrown_at zero status signal t s w =
    let x = record t { depth = 0 } in
    elim (Bool-cases (t.legacy_active && t.legacy_depth == 0)) [
      | inl e ↦
          let p = both t.legacy_active (t.legacy_depth == 0) e in
          legacy_thrown status signal x s p.0 (equal t.legacy_depth 0 p.1)
      | inr e ↦
          let off = no_legacy t.legacy_active t.legacy_depth w.legacy e in
          errexit-host status signal x (ground (arith, off))
          ∙ ap (handler status x) (sym (frame_top x e))
    ]
thrown_at (suc n) status signal t s w =
    let x = record t { depth = suc n } in
    elim (Bool-cases (t.legacy_active && leb (suc n) t.legacy_depth)) [
      | inl e ↦
          let p = both t.legacy_active (leb (suc n) t.legacy_depth) e in
          legacy_thrown status signal x s p.0 (ground (arith, e, w.legacy p.0))
      | inr e ↦
          let live = w.active n (omega arith) in
          errexit-throws status signal x s (ground (arith, live, w.depth))
          ∙ sigthrow-frame status t n w.depth live e
          ∙ ap (λ k. jump status (to_frame k) (get_or t.masks n 0) x)
              (sym (count-bindings (record t { depth = n })))
          ∙ ap (handler status x)
              (sym (frame_top x (no_legacy_top t.legacy_active t.legacy_depth n e)))
    ]

-- While errors exit, `gk_errexit` with SIGMEM or SIGERR goes to the innermost binding of the thread,
-- frame or legacy, with the signal mask of its beginning, and leaves the process where that mask
-- cannot be restored; without a binding it goes to the host. No binding is ended by it.
pub errexit-Handled :
    (status : Option Errno) (signal : Signal) (t : Thread)
    → is_synchronous signal ≡ true
    → IsThread t
    → errexit true status signal t ≡ handler status t (bindings t)
errexit-Handled status signal t s w = thrown_at t.depth status signal t s w
