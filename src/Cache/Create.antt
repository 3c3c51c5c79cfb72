-- ===== src/Cache/Create.antt =====
-- `gk_cacheCreate` and `gk_cacheReset`.
use gklib.Base.{ℕ, ◌*◌, ◌^◌, ◌≡◌, ◌<◌, refl, false, arith, length-replicate, get_or-replicate}
use gklib.Cache.{Cache, create, reset}
use gklib.Cache.Load.{IsCache}
use gklib.Cache.Search.{holds}

-- `gk_cacheCreate` of at least one way gives a well-formed cache.
pub create-IsCache :
    (nway lnbits cnbits : ℕ) → 0 < nway → 0 < 2 ^ cnbits → IsCache (create nway lnbits cnbits)
unfolding create
create-IsCache nway lnbits cnbits h p = record {
  times = length-replicate (2 ^ cnbits * nway) 0;
  lines = length-replicate (2 ^ cnbits * nway) 0;
  mask = omega arith;
  ways = h;
  balance = refl;
}

-- `gk_cacheReset` leaves a well-formed cache of the same size, with no hit and no miss counted, that
-- holds no line at any place.
reset-IsCache :
    (c : Cache)
    → IsCache c
    → IsCache (reset c)
      × ((reset c).csize ≡ c.csize)
      × ((reset c).nhits ≡ 0)
      × ((reset c).nmisses ≡ 0)
      × ((line j : ℕ) → holds (reset c) line j ≡ false)
unfolding reset
reset-IsCache c w = (
  record {
    times = length-replicate (c.csize * c.nway) 0;
    lines = length-replicate (c.csize * c.nway) 0;
    mask = w.mask;
    ways = w.ways;
    balance = refl;
  },
  refl,
  refl,
  refl,
  λ line j. rw (get_or-replicate {A = ℕ} (c.csize * c.nway) j 0) refl,
)
