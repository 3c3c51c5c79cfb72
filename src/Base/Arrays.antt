-- ===== src/Base/Arrays.antt =====
-- Checked reads and writes of a C array; `none` is an access outside it.
use Prim.Native.Nat.{ℕ, zero, suc, ◌<◌}
use mathlib.Core.Path.{◌≡◌, refl}
use mathlib.Core.List.{List, [], ◌∷◌}
use mathlib.Core.Option.{Option, none, some}
use native.Mathlib.Omega.{arith}
use gklib.Base.Tests.{ltb, ◌==◌, if◌then◌else◌}
use gklib.Base.Lists.{length, get_elem?, get_or, set}

infixl 5 ◌>>=◌
abbrev pub ◌>>=◌ {ℓ κ} : {A : Type ℓ} {B : Type κ} → Option A → (A → Option B) → Option B
none >>= f = none
some a >>= f = f a

module _ {ℓ} {A : Type ℓ} where
  unfoldable pub write : List A → ℕ → A → Option (List A)
  write a i v = if ltb i (length a) then some (set a i v) else none

  pub write-eq-some : (a : List A) (i : ℕ) (v : A) → i < length a → write a i v ≡ some (set a i v)
  unfolding write
  write-eq-some a i v h = ground arith

  pub get_elem?-get_or :
      (a : List A) (i : ℕ) (d : A) → i < length a → get_elem? a i ≡ some (get_or a i d)
  get_elem?-get_or [] i d h = absurd (omega arith)
  get_elem?-get_or (x ∷ a) zero d h = refl
  get_elem?-get_or (x ∷ a) (suc i) d h = get_elem?-get_or a i d (omega arith)

  pub get_or-set :
      (a : List A) (i j : ℕ) (v d : A)
      → i < length a
      → get_or (set a i v) j d ≡ (if i == j then v else get_or a j d)
  get_or-set [] i j v d h = absurd (omega arith)
  get_or-set (x ∷ a) zero zero v d h = refl
  get_or-set (x ∷ a) zero (suc j) v d h = ground arith
  get_or-set (x ∷ a) (suc i) zero v d h = ground arith
  get_or-set (x ∷ a) (suc i) (suc j) v d h = ground (arith, get_or-set a i j v d)
