-- ===== src/Base64/Bits.antt =====
-- The masks and joins of the encoding as arithmetic, by a table for each.
use Prim.Native.Nat.{bit_and, bit_or}
use gklib.Base.{ℕ, zero, suc, ◌+◌, ◌*◌, ◌%◌, ◌<◌, ◌≡◌, refl, Bool, true, ◌&&◌, arith, ◌==◌, ==_iff}

pub agree : (ℕ → Bool) → ℕ → Bool
agree test zero = true
agree test (suc bound) = agree test bound && test bound

-- A test that a table has seen pass holds at each code of the table.
from_table :
    (test : ℕ → Bool) (bound code : ℕ) → code < bound → agree test bound ≡ true → test code ≡ true
unfolding agree
from_table test zero code below passes = absurd (omega arith)
from_table test (suc bound) code below passes = ground (arith, from_table test bound code)

mask_3 : agree (λ x. bit_and x 0x03 == x % 4) 256 ≡ true
unfolding agree
mask_3 = refl

mask_15 : agree (λ x. bit_and x 0x0f == x % 16) 256 ≡ true
unfolding agree
mask_15 = refl

mask_63 : agree (λ x. bit_and x 0x3f == x % 64) 256 ≡ true
unfolding agree
mask_63 = refl

-- `hi << k | lo` for `lo` below `2 ^ k`.
join_table : ℕ → ℕ → Bool
join_table width k = agree (λ hi. agree (λ lo. bit_or (hi * k) lo == hi * k + lo) k) width

join_rows : (join_table 64 4 && (join_table 16 16 && (join_table 64 16 && join_table 64 64))) ≡ true
unfolding join_table agree
join_rows = refl

join :
    (width k hi lo : ℕ)
    → join_table width k ≡ true
    → hi < width
    → lo < k
    → bit_or (hi * k) lo ≡ hi * k + lo
unfolding join_table
join width k hi lo t h l = (==_iff _ _).0 (
    from_table (λ lo. bit_or (hi * k) lo == hi * k + lo) k lo l
      (from_table (λ hi. agree (λ lo. bit_or (hi * k) lo == hi * k + lo) k) width hi h t))

pub and_3 : (x : ℕ) → x < 256 → bit_and x 0x03 ≡ x % 4
and_3 x h = (==_iff _ _).0 (from_table _ 256 x h mask_3)

pub and_15 : (x : ℕ) → x < 256 → bit_and x 0x0f ≡ x % 16
and_15 x h = (==_iff _ _).0 (from_table _ 256 x h mask_15)

pub and_63 : (x : ℕ) → x < 256 → bit_and x 0x3f ≡ x % 64
and_63 x h = (==_iff _ _).0 (from_table _ 256 x h mask_63)

pub or_4 : (hi lo : ℕ) → hi < 64 → lo < 4 → bit_or (hi * 4) lo ≡ hi * 4 + lo
or_4 hi lo = join 64 4 hi lo (ground (arith, join_rows))

pub or_16 : (hi lo : ℕ) → hi < 64 → lo < 16 → bit_or (hi * 16) lo ≡ hi * 16 + lo
or_16 hi lo = join 64 16 hi lo (ground (arith, join_rows))

pub or_64 : (hi lo : ℕ) → hi < 64 → lo < 64 → bit_or (hi * 64) lo ≡ hi * 64 + lo
or_64 hi lo = join 64 64 hi lo (ground (arith, join_rows))
