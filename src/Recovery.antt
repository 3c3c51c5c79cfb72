-- ===== src/Recovery.antt =====
-- The recovery frames of src/error.c: where an error that is reported goes. The variables of one
-- thread are a record; `depth` is `gk_cur_jbufs` + 1, which no call takes below 0, and
-- `legacy_depth` is shifted likewise. A signal mask is a number, and `mask` is the thread's own.
-- Whether `pthread_sigmask` fails, and its status, is an argument of the calls that use it.
pub mod Stack
pub mod Calls
pub mod Makes
pub mod Ends
pub mod Refine
pub mod Report
mod Tests
use gklib.Base.{
  ℕ, zero, suc, ◌+◌, ◌-◌, ◌≡◌, Bool, true, false, ◌&&◌, ◌||◌, not, Option, none, some, List, [],
  ◌∷◌, ltb, leb, ◌==◌, if◌then◌else◌, get_or, set, replicate,
}
use gklib.Base.Outcome.{Signal, sigerr, sigmem, Errno, einval, eoverflow}

-- `MAX_JBUFS`.
abbrev pub max_jbufs : ℕ
max_jbufs = 128

pub record Thread : Type 0 where
  pub depth : ℕ
  pub active : List Bool
  pub masks : List ℕ
  pub legacy_active : Bool
  pub legacy_depth : ℕ
  pub legacy_mask : ℕ
  pub mask : ℕ

-- The variables at the start of a thread.
abbrev pub fresh : ℕ → Thread
fresh mask = record {
  depth = 0;
  active = replicate max_jbufs false;
  masks = replicate max_jbufs 0;
  legacy_active = false;
  legacy_depth = 0;
  legacy_mask = 0;
  mask = mask;
}

-- What a call leaves, and its `errno` where it fails.
abbrev pub Reply : Type 0
Reply = Thread × Option Errno

-- What is done after `pthread_sigmask`, or its failure.
abbrev pub unless : Option Errno → Thread → Thread → Reply
unless none done t = (done, none)
unless (some errno) done t = (t, some errno)

-- `gk_sigtrap`.
unfoldable pub sigtrap : Option Errno → Thread → Reply
sigtrap status t =
    if leb max_jbufs t.depth
    then (t, some eoverflow)
    else unless status
        (record t {
          masks = set t.masks t.depth t.mask;
          active = set t.active t.depth true;
          depth = suc t.depth;
        })
        t

-- The frame at the top of the stack is in use.
abbrev pub top_active : Thread → Bool
top_active t = ltb 0 t.depth && get_or t.active (t.depth - 1) false

-- `gk_siguntrap`.
unfoldable pub siguntrap : Option Errno → Thread → Reply
siguntrap status t =
    if not (leb t.depth max_jbufs && top_active t)
      || (t.legacy_active && leb t.depth t.legacy_depth)
    then (t, some einval)
    else unless status
        (record t {
          mask = get_or t.masks (t.depth - 1) 0;
          active = set t.active (t.depth - 1) false;
          depth = t.depth - 1;
        })
        t

-- `gk_SetSignalHandlers`; it returns nothing, so a failure shows only in `errno`.
unfoldable pub set_signal_handlers : Option Errno → Thread → Reply
set_signal_handlers status t =
    if t.legacy_active
    then (t, some einval)
    else unless status
        (record t { legacy_mask = t.mask; legacy_depth = t.depth; legacy_active = true }) t

-- `gk_UnsetSignalHandlers`.
unfoldable pub unset_signal_handlers : Option Errno → Thread → Reply
unset_signal_handlers status t =
    if not t.legacy_active || not (t.depth == t.legacy_depth)
    then (t, some einval)
    else unless status (record t { mask = t.legacy_mask; legacy_active = false; legacy_depth = 0 })
        t

-- Where control goes: to the jump buffer of a frame, to the legacy one, to the host by `raise`, out
-- of the process, or back to the caller.
pub data Control : Type 0 where
  to_frame : ℕ → Control
  to_legacy to_host out_of_process to_caller : Control

-- A jump that first restores a signal mask, and leaves the process where this fails.
abbrev pub jump : Option Errno → Control → ℕ → Thread → Thread × Control
jump none target mask t = (record t { mask = mask }, target)
jump (some _) target mask t = (t, out_of_process)

-- `gk_NonLocalExit_Handler` while the legacy binding is active.
unfoldable pub non_local_exit : Option Errno → Thread → Thread × Control
non_local_exit status t = jump status to_legacy t.legacy_mask t

-- `gk_sigthrow`.
unfoldable pub sigthrow : Option Errno → Thread → Thread × Control
sigthrow status t =
    if t.legacy_active && leb t.depth t.legacy_depth
    then non_local_exit status t
    else if ltb 0 t.depth && leb t.depth max_jbufs
    then if get_or t.active (t.depth - 1) false
      then jump status (to_frame (t.depth - 1)) (get_or t.masks (t.depth - 1) 0) t
      else (t, to_frame (t.depth - 1))
    else (t, to_host)

-- The signal is one of the library's.
abbrev pub is_synchronous : Signal → Bool
is_synchronous sigmem = true
is_synchronous sigerr = true
is_synchronous _ = false

-- `gk_errexit`, while `gk_exit_on_error` is `exits`.
unfoldable pub errexit : Bool → Option Errno → Signal → Thread → Thread × Control
errexit exits status signal t =
    if exits
    then if is_synchronous signal && (t.legacy_active || (leb t.depth max_jbufs && top_active t))
      then sigthrow status t
      else (t, to_host)
    else (t, to_caller)
