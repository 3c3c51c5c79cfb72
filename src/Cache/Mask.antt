-- ===== src/Cache/Mask.antt =====
-- The mask of the set number.
use Prim.Native.Nat.{bit_and, bit_and-bitwise, digits, min}
use gklib.Base.{ℕ, zero, suc, ◌/◌, ◌≤◌, arith}

low_digits : (fuel a b : ℕ) → digits (λ _. zero) min fuel a b ≤ b
low_digits zero a b = omega arith
low_digits (suc fuel) zero b = omega arith
low_digits (suc fuel) (suc a) b = omega (arith, low_digits fuel (suc a / 2) (b / 2))

pub bit_and-le : (a mask : ℕ) → bit_and a mask ≤ mask
bit_and-le a mask = omega (arith, bit_and-bitwise a mask, low_digits a a mask)
