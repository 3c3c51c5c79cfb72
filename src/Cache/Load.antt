-- ===== src/Cache/Load.antt =====
-- `gk_cacheLoad`.
use Prim.Native.Nat.{bit_and}
use native.Mathlib.Nat.{mul-le-mul_right}
use gklib.Base.{
  ℕ, ◌+◌, ◌*◌, ◌/◌, ◌^◌, ◌≤◌, ◌<◌, ◌≡◌, refl, ◌∙◌, ◌⊎◌, inl, inr, true, false, none, some, List,
  length, get_or, set, arith, length-set,
}
use gklib.Base.Arrays.{write-eq-some, get_or-set}
use gklib.Cache.{Cache, find_hit, find_place, hit, miss, load_line, load, next_count}
use gklib.Cache.Mask.{bit_and-le}
use gklib.Cache.Search.{holds, Inside, find_hit-Looked, find_place-Chosen}

-- Both arrays have a place for each line, there is a way, and every access was a hit or a miss.
pub record IsCache (c : Cache) : Type 0 where
  pub times : length c.latimes ≡ c.csize * c.nway
  pub lines : length c.clines ≡ c.csize * c.nway
  pub mask : c.cmask + 1 ≡ c.csize
  pub ways : 0 < c.nway
  pub balance : c.nhits + c.nmisses ≡ c.clock

-- The place that an access used: it now holds the line, as used last.
abbrev pub Used : Cache → ℕ → ℕ → ℕ → Type 0
Used c line base p =
    (base ≤ p)
    × ((p < base + c.nway) × ((get_or c.latimes p 0 ≡ c.clock) × (get_or c.clines p 0 ≡ line)))

-- A hit leaves the lines; a miss replaces the place with the least time of the set.
abbrev pub Verdict : Cache → Cache → ℕ → ℕ → ℕ → Type 0
Verdict c c' line base p =
    ((holds c line p ≡ true) × ((c'.nhits ≡ c.nhits + 1) × (c'.clines ≡ c.clines)))
    ⊎ (((j : ℕ) → base ≤ j → j < base + c.nway → holds c line j ≡ false)
        × ((c'.nmisses ≡ c.nmisses + 1)
            × ((j : ℕ)
                → base ≤ j
                → j < base + c.nway
                → get_or c.latimes p 0 ≤ get_or c.latimes j 0)))

pub record Loaded (c : Cache) (line base : ℕ) (c' : Cache) : Type 0 where
  pub whole : IsCache c'
  pub ticked : c'.clock ≡ c.clock + 1
  pub place : ℕ
  pub used : Used c' line base place
  pub outcome : Verdict c c' line base place

-- The cache after the clock has ticked.
abbrev pub ticked_cache : Cache → Cache
ticked_cache c = record c { clock = c.clock + 1 }

hit-some :
    (c : Cache) (i : ℕ)
    → i < length c.latimes
    → hit c i ≡ some (record c { nhits = next_count c.nhits; latimes = set c.latimes i c.clock })
unfolding hit
hit-some c i h = rw (write-eq-some c.latimes i c.clock h) refl

miss-some :
    (c : Cache) (line i : ℕ)
    → i < length c.latimes
    → i < length c.clines
    → miss c line i
      ≡ some (record c {
        nmisses = next_count c.nmisses;
        clines = set c.clines i line;
        latimes = set c.latimes i c.clock;
      })
unfolding miss
miss-some c line i h k =
    rw (write-eq-some c.latimes i c.clock h, write-eq-some c.clines i line k) refl

load_line-hit :
    (c : Cache) (line base i : ℕ)
    → find_hit c line c.nway base ≡ some (some i)
    → load_line c line base ≡ hit c i
unfolding load_line
load_line-hit c line base i e = rw e refl

load_line-miss :
    (c : Cache) (line base i : ℕ)
    → find_hit c line c.nway base ≡ some none
    → find_place c base c.nway base ≡ some i
    → load_line c line base ≡ miss c line i
unfolding load_line
load_line-miss c line base i e f = rw (e, f) refl

set_at : (a : List ℕ) (i v : ℕ) → i < length a → get_or (set a i v) i 0 ≡ v
set_at a i v h = ground (arith, get_or-set a i i v 0 h)

counted : (n total : ℕ) → n ≤ total → total + 1 < 2 ^ 64 → next_count n ≡ n + 1
counted n total h b = omega arith

line_read : (c : Cache) (line p : ℕ) → holds c line p ≡ true → get_or c.clines p 0 ≡ line
line_read c line p h = ground arith

-- The set of a masked line number is inside the arrays.
in_arrays :
    (line mask size nway : ℕ) → mask + 1 ≡ size → bit_and line mask * nway + nway ≤ size * nway
in_arrays line mask size nway e = omega (
  arith,
  mul-le-mul_right {m = bit_and line mask + 1} {n = size} nway
      (omega (arith, bit_and-le line mask)),
)

bounded_load :
    (c : Cache) (line base : ℕ)
    → IsCache c
    → c.clock + 1 < 2 ^ 64
    → base + c.nway ≤ c.csize * c.nway
    → (c' : Cache) × ((load_line (ticked_cache c) line base ≡ some c') × Loaded c line base c')
bounded_load c line base w tick fit =
    let t = ticked_cache c in
    let inside : Inside t (base + c.nway) = (omega (arith, w.times), omega (arith, w.lines)) in
    elim (find_hit-Looked t line c.nway base inside) [
      | inr (j, (e, (a, (b, h)))) ↦
          let room : j < length c.latimes = omega (arith, w.times) in
          (
            record t { nhits = next_count c.nhits; latimes = set c.latimes j t.clock },
            (
              load_line-hit t line base j e ∙ hit-some t j room,
              record {
                whole = record {
                  times = length-set c.latimes j t.clock ∙ w.times;
                  lines = w.lines;
                  mask = w.mask;
                  ways = w.ways;
                  balance = omega (arith, w.balance);
                };
                ticked = refl;
                place = j;
                used = (a, (b, (set_at c.latimes j t.clock room, line_read t line j h)));
                outcome = inl (h, (omega (arith, w.balance), refl));
              },
            ),
          )
      | inl (e, none_of) ↦
          let r =
            find_place-Chosen t base c.nway base (omega (arith, w.times, w.ways))
              (omega (arith, w.times)) in
          let within : (base ≤ r.place) × (r.place < base + c.nway) = elim r.from [
            | inl s ↦ (omega (arith, s), omega (arith, s, w.ways))
            | inr s ↦ s
          ] in
          let room : r.place < length c.latimes = omega (arith, w.times, within.1) in
          let space : r.place < length c.clines = omega (arith, w.lines, within.1) in
          (
            record t {
              nmisses = next_count c.nmisses;
              clines = set c.clines r.place line;
              latimes = set c.latimes r.place t.clock;
            },
            (
              load_line-miss t line base r.place e r.run ∙ miss-some t line r.place room space,
              record {
                whole = record {
                  times = length-set c.latimes r.place t.clock ∙ w.times;
                  lines = length-set c.clines r.place line ∙ w.lines;
                  mask = w.mask;
                  ways = w.ways;
                  balance = omega (arith, w.balance);
                };
                ticked = refl;
                place = r.place;
                used = (
                  within.0,
                  (
                    within.1,
                    (set_at c.latimes r.place t.clock room, set_at c.clines r.place line space),
                  ),
                );
                outcome = inr (none_of, (omega (arith, w.balance), r.least));
              },
            ),
          )
    ]

load-ticked :
    (c : Cache) (addr : ℕ)
    → c.clock + 1 < 2 ^ 64
    → load c addr
      ≡ load_line
          (ticked_cache c)
          (addr / 2 ^ c.lnbits)
          (bit_and (addr / 2 ^ c.lnbits) c.cmask * c.nway)
unfolding load
load-ticked c addr h = rw (counted c.clock c.clock (omega arith) h) refl

-- `gk_cacheLoad` of any address on a well-formed cache, before its clock wraps, stays inside the
-- arrays and leaves a well-formed cache where a place of the address's set holds its line as used
-- last. It counts a hit only where a place held the line, and a miss only where none did; a miss
-- replaces a place whose last access is the earliest of the set.
pub load-Loaded :
    (c : Cache) (addr : ℕ)
    → IsCache c
    → c.clock + 1 < 2 ^ 64
    → (c' : Cache) × ((load c addr ≡ some c')
        × Loaded c (addr / 2 ^ c.lnbits) (bit_and (addr / 2 ^ c.lnbits) c.cmask * c.nway) c')
load-Loaded c addr w tick =
    let r =
      bounded_load c (addr / 2 ^ c.lnbits) (bit_and (addr / 2 ^ c.lnbits) c.cmask * c.nway) w tick
        (in_arrays (addr / 2 ^ c.lnbits) c.cmask c.csize c.nway w.mask) in
    (r.0, (load-ticked c addr tick ∙ r.1.0, r.1.1))
