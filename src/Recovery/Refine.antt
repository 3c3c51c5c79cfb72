-- ===== src/Recovery/Refine.antt =====
-- The four calls together.
use gklib.Base.{Option}
use gklib.Base.Outcome.{Errno}
use gklib.Recovery.{Thread}
use gklib.Recovery.Stack.{IsThread}
use gklib.Recovery.Calls.{Call, trap, untrap, set_handlers, unset_handlers, Refines}
use gklib.Recovery.Makes.{trap-Refines, set-Refines}
use gklib.Recovery.Ends.{unset-Refines, untrap_by}

-- Each call on the bindings of a thread, whether or not `pthread_sigmask` fails in it, does what it
-- promises: the frames and the one legacy binding form a stack of at most 128 frames, an end is taken
-- only from the innermost binding, of its kind, and gives the thread the mask of its beginning; a
-- refused call has its `errno` and changes nothing. The invariant of the variables is kept.
pub run-Refines : (c : Call) (status : Option Errno) (t : Thread) → IsThread t → Refines c status t
run-Refines trap status t w = trap-Refines status t w
run-Refines untrap status t w = untrap_by t.depth status t w
run-Refines set_handlers status t w = set-Refines status t w
run-Refines unset_handlers status t w = unset-Refines status t w
