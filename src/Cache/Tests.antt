-- ===== src/Cache/Tests.antt =====
-- Runs of a cache with two sets of two lines of 4 bytes, and the theorems at it.
use Prim.Native.Nat.{bit_and}
use gklib.Base.{◌*◌, ◌/◌, ◌^◌, ◌≡◌, refl, Option, some, [], ◌∷◌, arith}
use gklib.Base.Arrays.{◌>>=◌, write}
use gklib.Cache.{Cache, create, find_hit, find_place, hit, miss, load_line, load}
use gklib.Cache.Load.{Loaded, load-Loaded}
use gklib.Cache.Create.{create-IsCache}

program : Unit {0}
unfolding write create find_hit find_place hit miss load_line load
program = tt

-- Three lines of set 0, of which the second load of address 1 hits, and the last replaces line 4.
abbrev session : Option Cache
session = load (create 2 2 1) 1 >>= (λ c. load c 16) >>= (λ c. load c 2) >>= (λ c. load c 32)

session_result :
    session
    ≡ some (record {
      nway = 2;
      lnbits = 2;
      cnbits = 1;
      csize = 2;
      cmask = 1;
      clock = 4;
      latimes = 3 ∷ 4 ∷ 0 ∷ 0 ∷ [];
      clines = 0 ∷ 8 ∷ 0 ∷ 0 ∷ [];
      nhits = 1;
      nmisses = 3;
    })
unfolding program
session_result = refl

load-Loaded_example :
    (c' : Cache) × ((load (create 2 2 1) 16 ≡ some c')
      × Loaded
          (create 2 2 1)
          (16 / 2 ^ (create 2 2 1).lnbits)
          (bit_and (16 / 2 ^ (create 2 2 1).lnbits) (create 2 2 1).cmask * (create 2 2 1).nway)
          c')
unfolding create
load-Loaded_example =
    load-Loaded (create 2 2 1) 16 (create-IsCache 2 2 1 (omega arith) (omega arith)) (omega arith)
