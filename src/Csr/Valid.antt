-- ===== src/Csr/Valid.antt =====
-- What a valid side of a matrix is, and the room its checks need.
use gklib.Base.{ℕ, suc, ◌/◌, ◌≤◌, ◌<◌, ◌≡◌, Option, none, some, List, length, get_or}
use gklib.Base.Size.{size_max}
use gklib.Csr.{ℤ, pos, negsuc}

-- An element of an array of integers.
abbrev pub at : List ℤ → ℕ → ℤ
at a i = get_or a i (pos 0)

-- `0 ≤ a ≤ b`.
abbrev pub Step : ℤ → ℤ → Type 0
Step (pos a) (pos b) = a ≤ b
Step (pos a) (negsuc b) = ⊥
Step (negsuc a) b = ⊥

-- `0 ≤ a < n`.
abbrev pub InRange : ℕ → ℤ → Type 0
InRange n (pos a) = a < n
InRange n (negsuc a) = ⊥

abbrev pub AllInRange : ℕ → ℕ → Option (List ℤ) → Type 0
AllInRange other n none = n ≡ 0
AllInRange other n (some ind) = (k : ℕ) → k < n → InRange other (at ind k)

-- Values stand beside indices.
abbrev pub Paired : {V : Type 0} → Option (List ℤ) → Option V → Type 0
Paired none none = Unit {0}
Paired none (some v) = ⊥
Paired (some ind) val = Unit {0}

-- The arrays reach as far as the pointers say.
abbrev pub Reaches : ℕ → Option (List ℤ) → Type 0
Reaches n none = Unit {0}
Reaches n (some ind) = n ≤ length ind

-- A valid view with `n` entries: its pointers rise from 0 to `n`, its indices are numbers of the other
-- dimension, and its arrays have sizes that the machine can count.
pub record IsSparse {V : Type 0} (dimension other : ℕ) (ptr : List ℤ) (ind : Option (List ℤ))
    (val : Option V) (n : ℕ) : Type 0 where
  pub first : at ptr 0 ≡ pos 0
  pub rising : (k : ℕ) → k < dimension → Step (at ptr k) (at ptr (suc k))
  pub last : at ptr dimension ≡ pos n
  pub inside : AllInRange other n ind
  pub paired : Paired ind val
  pub few : suc dimension ≤ size_max / 8
  pub small : n ≤ size_max / 4

-- The pointers have an element for each row and one more, and the indices reach as far as the
-- pointers say, if they say a number.
abbrev pub HasRoom : ℕ → List ℤ → Option (List ℤ) → Type 0
HasRoom dimension ptr ind =
    (dimension < length ptr) × ((n : ℕ) → at ptr dimension ≡ pos n → Reaches n ind)

-- Integers from -1 on in order; equal integers have equal ranks.
abbrev pub rank : ℤ → ℕ
rank (negsuc a) = 0
rank (pos a) = suc a
