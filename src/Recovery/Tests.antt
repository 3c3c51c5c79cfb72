-- ===== src/Recovery/Tests.antt =====
-- A frame, the legacy binding inside it, and an error; and the theorems at these bindings.
use gklib.Base.{ℕ, ◌≡◌, refl, true, none, some, [], ◌∷◌, arith}
use gklib.Base.Outcome.{sigerr, sigmem, einval}
use gklib.Recovery.{
  Thread, fresh, sigtrap, siguntrap, set_signal_handlers, unset_signal_handlers, to_legacy,
  non_local_exit, sigthrow, errexit,
}
use gklib.Recovery.Stack.{frame, legacy, bindings, IsThread}
use gklib.Recovery.Calls.{trap, untrap, set_handlers, run, Refines}
use gklib.Recovery.Refine.{run-Refines}
use gklib.Recovery.Report.{handler, errexit-Handled}

program : Unit {0}
unfolding sigtrap siguntrap set_signal_handlers unset_signal_handlers non_local_exit sigthrow
    errexit run
program = tt

abbrev session : Thread
unfolding program
session = (run set_handlers none (record (run trap none (fresh 5)).0 { mask = 6 })).0

session-bindings : bindings session ≡ legacy 6 ∷ frame 5 ∷ []
unfolding program
session-bindings = refl

-- The frame cannot end before the legacy binding inside it.
early_untrap : (run untrap none session).1 ≡ some einval
unfolding program
early_untrap = refl

to_the_legacy : (errexit true none sigerr session).1 ≡ to_legacy
unfolding program
to_the_legacy = refl

fresh-IsThread : (mask : ℕ) → IsThread (fresh mask)
fresh-IsThread mask = record {
  depth = omega arith;
  masks = refl;
  frames = refl;
  active = λ k l. absurd (omega arith);
  legacy = λ e. omega arith;
}

run-Refines_example : Refines trap none (fresh 5)
run-Refines_example = run-Refines trap none (fresh 5) (fresh-IsThread 5)

errexit-Handled_example :
    errexit true none sigmem (run trap none (fresh 5)).0
    ≡ handler none (run trap none (fresh 5)).0 (bindings (run trap none (fresh 5)).0)
errexit-Handled_example =
    errexit-Handled none sigmem (run trap none (fresh 5)).0 refl
      (run-Refines trap none (fresh 5) (fresh-IsThread 5)).0
