-- ===== src/Base/Size.antt =====
-- `size_t` arithmetic of src/memory_internal.h: a `size_t` has 64 bits.
use gklib.Base.Tests.{ltb, ◌==◌, not-ltb, if◌then◌else◌, Bool-cases}
use Prim.Native.Nat.{ℕ, zero, suc, ◌≤◌, ◌<◌, ◌+◌, ◌-◌, ◌*◌, ◌/◌, ◌^◌}
use mathlib.Core.Path.{◌≡◌, refl}
use mathlib.Core.Logic.{inl, inr}
use native.Mathlib.Nat.{le-div_iff_mul-le, mul_comm}
use native.Mathlib.Omega.{arith}
use mathlib.Core.Option.{Option, none, some}

abbrev pub size_max : ℕ
size_max = 2 ^ 64 - 1

abbrev pub ptrdiff_max : ℕ
ptrdiff_max = 2 ^ 63 - 1

-- `gk_size_add`; `none` is the return of 0 with EOVERFLOW.
unfoldable pub size_add : ℕ → ℕ → Option ℕ
size_add left right = if ltb (size_max - right) left then none else some (left + right)

-- `gk_size_mul`.
unfoldable pub size_mul : ℕ → ℕ → Option ℕ
size_mul left right =
    if left == 0
    then some (left * right)
    else if ltb (size_max / left) right
    then none
    else some (left * right)

fits : (n right : ℕ) → suc n * right ≤ size_max → right ≤ size_max / suc n
fits n right h = (le-div_iff_mul-le (omega arith)).1 (omega (arith, mul_comm right (suc n)))

-- A product within the range is given back.
pub size_mul-eq-some :
    (left right : ℕ) → left * right ≤ size_max → size_mul left right ≡ some (left * right)
unfolding size_mul
size_mul-eq-some zero right h = refl
size_mul-eq-some (suc n) right h =
    rw (not-ltb (size_max / suc n) right (fits n right h)) (ground arith)

-- A product out of the range is refused.
pub size_mul-overflow : (left right : ℕ) → size_max < left * right → size_mul left right ≡ none
unfolding size_mul
size_mul-overflow zero right h = absurd (omega (arith, h))
size_mul-overflow (suc n) right h = elim (Bool-cases (ltb (size_max / suc n) right)) [
  | inl e ↦ rw e (ground arith)
  | inr e ↦
      let p : right ≤ size_max / suc n = ground (arith, e) in
      let m : right * suc n ≤ size_max =
        (le-div_iff_mul-le {k = suc n} {x = right} {y = size_max} (omega arith)).0 p in
      absurd (omega (arith, h, m, mul_comm right (suc n)))
]
