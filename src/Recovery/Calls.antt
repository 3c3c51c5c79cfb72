-- ===== src/Recovery/Calls.antt =====
-- The four calls that make and end bindings, as steps on the stack.
use gklib.Base.{ℕ, ◌≡◌, refl, sym, ap, ◌∙◌, Option, none, some, List, [], ◌∷◌, leb, if◌then◌else◌}
use mathlib.Core.Path.{subst}
use gklib.Base.Outcome.{Errno, einval, eoverflow}
use gklib.Recovery.{
  max_jbufs, Thread, Reply, unless, sigtrap, siguntrap, set_signal_handlers, unset_signal_handlers,
}
use gklib.Recovery.Stack.{Binding, frame, legacy, bindings, IsThread, count_frames, has_legacy}

pub data Call : Type 0 where
  trap untrap set_handlers unset_handlers : Call

unfoldable pub run : Call → Option Errno → Thread → Reply
run trap status t = sigtrap status t
run untrap status t = siguntrap status t
run set_handlers status t = set_signal_handlers status t
run unset_handlers status t = unset_signal_handlers status t

-- The mask of the thread and its bindings.
pub record View : Type 0 where
  pub mask : ℕ
  pub stack : List Binding

abbrev pub view : Thread → View
view t = record { mask = t.mask; stack = bindings t }

abbrev pub unless_view : Option Errno → View → View → View × Option Errno
unless_view none done v = (done, none)
unless_view (some errno) done v = (v, some errno)

-- The end of a frame, or of the legacy binding, which must be the innermost.
abbrev pub end_frame : Option Errno → View → List Binding → View × Option Errno
end_frame status v [] = (v, some einval)
end_frame status v (frame m ∷ rest) = unless_view status (record { mask = m; stack = rest }) v
end_frame status v (legacy m ∷ rest) = (v, some einval)

abbrev pub end_legacy : Option Errno → View → List Binding → View × Option Errno
end_legacy status v [] = (v, some einval)
end_legacy status v (frame m ∷ rest) = (v, some einval)
end_legacy status v (legacy m ∷ rest) = unless_view status (record { mask = m; stack = rest }) v

-- What each call promises: at most 128 frames and one legacy binding, ended in reverse order.
abbrev pub promised : Call → Option Errno → View → View × Option Errno
promised trap status v =
    if leb max_jbufs (count_frames v.stack)
    then (v, some eoverflow)
    else unless_view status (record v { stack = frame v.mask ∷ v.stack }) v
promised untrap status v = end_frame status v v.stack
promised set_handlers status v =
    if has_legacy v.stack
    then (v, some einval)
    else unless_view status (record v { stack = legacy v.mask ∷ v.stack }) v
promised unset_handlers status v = end_legacy status v v.stack

-- A call does what it promises, and keeps the invariant.
abbrev pub Refines : Call → Option Errno → Thread → Type 0
Refines c status t =
    IsThread (run c status t).0
    × ((view (run c status t).0, (run c status t).1) ≡ promised c status (view t))

-- A change that a failure of `pthread_sigmask` leaves out.
pub changed :
    (status : Option Errno) (t done : Thread) (v : View)
    → IsThread t
    → IsThread done
    → view done ≡ v
    → IsThread (unless status done t).0
      × ((view (unless status done t).0, (unless status done t).1) ≡ unless_view status v (view t))
changed none t done v w w' e = (w', ap (λ x. (x, none)) e)
changed (some errno) t done v w w' e = (w, refl)

-- A call is what it promises if both are known.
pub by_replies :
    (c : Call) (status : Option Errno) (t : Thread) (r : Reply) (p : View × Option Errno)
    → run c status t ≡ r
    → promised c status (view t) ≡ p
    → IsThread r.0 × ((view r.0, r.1) ≡ p)
    → Refines c status t
by_replies c status t r p e f (w, g) =
    (subst (λ x. IsThread x.0) (sym e) w, ap (λ x. (view x.0, x.1)) e ∙ g ∙ sym f)
