-- ===== src/Recovery/Stack.antt =====
-- The stack that the variables stand for: the bindings of a thread, the innermost first, each with
-- the signal mask that its end restores.
use gklib.Base.{
  ℕ, zero, suc, ◌+◌, ◌≤◌, ◌<◌, ◌≡◌, refl, Bool, true, false, ◌&&◌, List, [], ◌∷◌, length, ◌==◌,
  if◌then◌else◌, get_or, set, arith,
}
use gklib.Base.Arrays.{get_or-set}
use gklib.Recovery.{max_jbufs, Thread}

pub data Binding : Type 0 where
  frame legacy : ℕ → Binding

-- The legacy binding stands above the frames that were there when it was made.
abbrev pub with_legacy : Bool → ℕ → ℕ → ℕ → List Binding → List Binding
with_legacy on d m k bs = if on && d == k then legacy m ∷ bs else bs

-- The bindings up to the frame `k`, it included.
abbrev pub below : List ℕ → Bool → ℕ → ℕ → ℕ → List Binding
below masks on d m zero = []
below masks on d m (suc k) = frame (get_or masks k 0) ∷ with_legacy on d m k (below masks on d m k)

abbrev pub bindings : Thread → List Binding
bindings t =
    with_legacy t.legacy_active t.legacy_depth t.legacy_mask t.depth
      (below t.masks t.legacy_active t.legacy_depth t.legacy_mask t.depth)

pub record IsThread (t : Thread) : Type 0 where
  pub depth : t.depth ≤ max_jbufs
  pub masks : length t.masks ≡ max_jbufs
  pub frames : length t.active ≡ max_jbufs
  pub active : (k : ℕ) → k < t.depth → get_or t.active k false ≡ true
  pub legacy : t.legacy_active ≡ true → t.legacy_depth ≤ t.depth

-- Frames above `k` do not show in the bindings up to it.
pub below-set :
    (masks : List ℕ) (on : Bool) (d m k i v : ℕ)
    → k ≤ i
    → i < length masks
    → below (set masks i v) on d m k ≡ below masks on d m k
below-set masks on d m zero i v h l = refl
below-set masks on d m (suc k) i v h l =
    ground (arith, get_or-set masks i k v 0, below-set masks on d m k i v)

-- Nor does a legacy binding made at `k` or above.
pub below-on :
    (masks : List ℕ) (d m d' m' k : ℕ) → k ≤ d → below masks true d m k ≡ below masks false d' m' k
below-on masks d m d' m' zero h = refl
below-on masks d m d' m' (suc k) h = ground (arith, below-on masks d m d' m' k)

abbrev pub is_frame : Binding → ℕ
is_frame (frame m) = 1
is_frame (legacy m) = 0

abbrev pub count_frames : List Binding → ℕ
count_frames [] = 0
count_frames (b ∷ bs) = is_frame b + count_frames bs

abbrev pub has_legacy : List Binding → Bool
has_legacy [] = false
has_legacy (frame m ∷ bs) = has_legacy bs
has_legacy (legacy m ∷ bs) = true

count-below : (masks : List ℕ) (on : Bool) (d m k : ℕ) → count_frames (below masks on d m k) ≡ k
count-below masks on d m zero = refl
count-below masks on d m (suc k) = ground (arith, count-below masks on d m k)

pub count-bindings : (t : Thread) → count_frames (bindings t) ≡ t.depth
count-bindings t =
    ground (arith, count-below t.masks t.legacy_active t.legacy_depth t.legacy_mask t.depth)

legacy-below_off : (masks : List ℕ) (d m k : ℕ) → has_legacy (below masks false d m k) ≡ false
legacy-below_off masks d m zero = refl
legacy-below_off masks d m (suc k) = legacy-below_off masks d m k

legacy-below_on : (masks : List ℕ) (d m k : ℕ) → d < k → has_legacy (below masks true d m k) ≡ true
legacy-below_on masks d m zero h = absurd (omega arith)
legacy-below_on masks d m (suc k) h = ground (arith, legacy-below_on masks d m k)

legacy_shown :
    (on : Bool) (masks : List ℕ) (d m k : ℕ)
    → (on ≡ true → d ≤ k)
    → has_legacy (with_legacy on d m k (below masks on d m k)) ≡ on
legacy_shown false masks d m k h = legacy-below_off masks d m k
legacy_shown true masks d m k h = ground (arith, h refl, legacy-below_on masks d m k)

pub legacy-bindings : (t : Thread) → IsThread t → has_legacy (bindings t) ≡ t.legacy_active
legacy-bindings t w =
    legacy_shown t.legacy_active t.masks t.legacy_depth t.legacy_mask t.depth w.legacy
