-- ===== src/Cache.antt =====
-- The cache simulator of src/cache.c: sets of `nway` lines with the time of the last access to each,
-- which is 0 for an empty line. A call is `none` if it leaves an array. The pointers into the two
-- arrays are the offset of the set.
pub mod Mask
pub mod Search
pub mod Load
pub mod Create
mod Tests
use Prim.Native.Nat.{bit_and}
use gklib.Base.{
  ℕ, zero, suc, ◌+◌, ◌-◌, ◌*◌, ◌/◌, ◌%◌, ◌^◌, Bool, true, false, ◌&&◌, not, Option, none, some,
  List, [], ◌∷◌, ltb, ◌==◌, if◌then◌else◌, get_elem?, replicate,
}
use gklib.Base.Arrays.{◌>>=◌, write}

pub record Cache : Type 0 where
  pub nway : ℕ
  pub lnbits : ℕ
  pub cnbits : ℕ
  pub csize : ℕ
  pub cmask : ℕ
  pub clock : ℕ
  pub latimes : List ℕ
  pub clines : List ℕ
  pub nhits : ℕ
  pub nmisses : ℕ

-- What `gk_cacheCreate` leaves where its checks pass and its allocations are granted.
unfoldable pub create : ℕ → ℕ → ℕ → Cache
create nway lnbits cnbits = record {
  nway = nway;
  lnbits = lnbits;
  cnbits = cnbits;
  csize = 2 ^ cnbits;
  cmask = 2 ^ cnbits - 1;
  clock = 0;
  latimes = replicate (2 ^ cnbits * nway) 0;
  clines = replicate (2 ^ cnbits * nway) 0;
  nhits = 0;
  nmisses = 0;
}

-- `gk_cacheReset`.
unfoldable pub reset : Cache → Cache
reset c = record c {
  nhits = 0;
  nmisses = 0;
  clock = 0;
  latimes = replicate (c.csize * c.nway) 0;
  clines = replicate (c.csize * c.nway) 0;
}

-- A `uint64_t` after `++`.
abbrev pub next_count : ℕ → ℕ
next_count n = (n + 1) % 2 ^ 64

-- The loop "look for hits" over the `n` places from `i` on: the place that it stops at.
unfoldable pub find_hit : Cache → ℕ → ℕ → ℕ → Option (Option ℕ)
find_hit c line zero i = some none
find_hit c line (suc n) i =
    let rest = find_hit c line n (suc i) in
    do
      time ← get_elem? c.latimes i
      held ← get_elem? c.clines i
      if not (time == 0) && (held == line) then some (some i) else rest

-- The loop "look for empty spots or the lru spot".
unfoldable pub find_place : Cache → ℕ → ℕ → ℕ → Option ℕ
find_place c lru zero i = some lru
find_place c lru (suc n) i =
    let later = find_place c i n (suc i) in
    let kept = find_place c lru n (suc i) in
    do
      time ← get_elem? c.latimes i
      least ← get_elem? c.latimes lru
      if time == 0 then some i else if ltb time least then later else kept

-- A hit at a place.
unfoldable pub hit : Cache → ℕ → Option Cache
hit c i = do
  latimes' ← write c.latimes i c.clock
  some (record c { nhits = next_count c.nhits; latimes = latimes' })

-- The initial fill of a place, or its replacement.
unfoldable pub miss : Cache → ℕ → ℕ → Option Cache
miss c line i = do
  clines' ← write c.clines i line
  latimes' ← write c.latimes i c.clock
  some (record c { nmisses = next_count c.nmisses; clines = clines'; latimes = latimes' })

-- `gk_cacheLoad` behind the clock, on the set at an offset.
unfoldable pub load_line : Cache → ℕ → ℕ → Option Cache
load_line c line base = do
  found ← find_hit c line c.nway base
  elim found [ some i ↦ hit c i | none ↦ find_place c base c.nway base >>= (λ i. miss c line i) ]

-- `gk_cacheLoad`, which always returns 1: the cache that it leaves.
unfoldable pub load : Cache → ℕ → Option Cache
load c addr =
    let line = addr / 2 ^ c.lnbits in
    load_line (record c { clock = next_count c.clock }) line (bit_and line c.cmask * c.nway)
