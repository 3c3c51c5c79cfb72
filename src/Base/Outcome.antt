-- ===== src/Base/Outcome.antt =====
-- How a call ends. Every error path of the library calls `gk_errexit` (src/error.c), which throws
-- to the innermost recovery frame or, while `gk_exit_on_error` is 0, returns to a caller that then
-- returns at once: `raised` is that end, with the signal, the `errno` and the state it leaves.

pub data Signal : Type 0 where
  -- `halt` is the `exit(-2)` of `errexit`.
  sigerr sigmem halt : Signal

pub data Errno : Type 0 where
  -- `unset` is the `errno` that the caller left.
  einval enomem eoverflow enospc unset : Errno

pub data Outcome {ℓ κ} (S : Type ℓ) (A : Type κ) : Type (ℓ ⊔ κ) where
  ok : A → S → Outcome S A
  raised : Signal → Errno → S → Outcome S A
  -- An access outside an object, which C leaves undefined.
  fault : Outcome S A

-- What follows a call in its caller, which returns at once on an error.
abbrev pub and_then {ℓ κ μ} :
    {S : Type ℓ} {A : Type κ} {B : Type μ} → Outcome S A → (A → S → Outcome S B) → Outcome S B
and_then (ok a s) f = f a s
and_then (raised signal errno s) f = raised signal errno s
and_then fault f = fault

-- `errno != 0 ? errno : ENOMEM`.
abbrev pub or_enomem : Errno → Errno
or_enomem unset = enomem
or_enomem einval = einval
or_enomem enomem = enomem
or_enomem eoverflow = eoverflow
or_enomem enospc = enospc
