-- ===== src/Mcore/Create.antt =====
-- `gk_mcoreCreate`.
use gklib.Base.{ℕ, ◌*◌, ◌^◌, ◌<◌, ◌≡◌, refl, inl, inr, Bool-cases, none, some, [], arith, ◌==◌}
use gklib.Base.Outcome.{ok}
use gklib.Mcore.{Mcore, Heap, create}
use gklib.Mcore.State.{IsMcore}

abbrev pub created : ℕ → Mcore
created coresize = record {
  coresize = coresize;
  corecpos = 0;
  nmops = 2048;
  mops = [];
  num_callocs = 0;
  num_hallocs = 0;
  size_callocs = 0;
  size_hallocs = 0;
  cur_callocs = 0;
  cur_hallocs = 0;
  max_callocs = 0;
  max_hallocs = 0;
}

pub created-IsMcore : (coresize : ℕ) → coresize < 2 ^ 64 → IsMcore (created coresize)
created-IsMcore n h = record {
  small = h;
  position = refl;
  core_current = refl;
  heap_current = refl;
  inside = omega arith;
  counted = omega arith;
  room = omega arith;
  seated = tt;
  framed = tt;
  known = tt;
}

-- Where every allocation is granted, `gk_mcoreCreate` gives a well-formed mcore of the size asked
-- for, with no record in it.
pub create-IsMcore :
    (h : Heap) (coresize : ℕ)
    → coresize < 2 ^ 64
    → ((bytes : ℕ) → h.reserve bytes ≡ none)
    → (c : Mcore) × ((create h coresize ≡ ok tt (some c))
        × (IsMcore c × ((c.coresize ≡ coresize) × (c.mops ≡ []))))
unfolding create
create-IsMcore h n b granted = (
  created n,
  (
    elim (Bool-cases (n == 0)) [
      | inl e ↦ rw (granted 112, e, granted (2048 * 24), create) refl
      | inr e ↦ rw (granted 112, e, granted n, granted (2048 * 24), create) refl
    ],
    (created-IsMcore n b, (refl, refl)),
  ),
)
