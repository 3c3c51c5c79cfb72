-- ===== src/PQueue/Tests.antt =====
-- Runs of the queue with numbers for keys and the test `a > b`, as src/pqueue.c instantiates it,
-- and the theorems at concrete queues.
use gklib.Base.{
  ℕ, ◌+◌, ◌-◌, ◌^◌, ◌≡◌, refl, true, false, Option, none, some, List, arith, ltb, ◌⊎◌, inl, inr, [],
  ◌∷◌, get_or, replicate, get_or-replicate,
}
use gklib.Base.Arrays.{◌>>=◌, write}
use gklib.PQueue.{
  KeyOrder, Kv, PQueue, move, place, forget, filter_up, below, right_below, pick, filter_down,
  filter, insert, fill, delete, update, refill, get_top, see_top_val, see_top_key, see_key,
  reset_loop, reset, init, init_filled, set_all, no_queue,
}
use gklib.PQueue.State.{put}
use gklib.PQueue.Refit.{Means, del}
use gklib.PQueue.Insert.{insert-Means, update-Means}
use gklib.PQueue.Delete.{delete-Means}
use gklib.PQueue.Top.{IsTop, get_top-Means, see-Means}
use gklib.PQueue.Reset.{reset-Means}
use gklib.PQueue.Init.{empty-Means}
use gklib.Base.Outcome.{sigmem, enomem, unset, ok, raised}

gt_asym : (a b : ℕ) → ltb b a ≡ true → ltb a b ≡ false
gt_asym a b h = ground arith

ge_trans : (a b c : ℕ) → ltb a b ≡ false → ltb b c ≡ false → ltb a c ≡ false
ge_trans a b c h k = ground arith

instance abbrev key_gt : KeyOrder ℕ
key_gt = record { lt = λ a b. ltb b a; kmax = 2 ^ 31 - 1; lt_asym = gt_asym; le_trans = ge_trans }

program : Unit {0}
unfolding write move place forget filter_up below right_below pick filter_down filter insert fill
    delete update refill get_top see_top_val see_top_key see_key reset_loop reset init init_filled
    set_all
program = tt

abbrev block : List (Kv ℕ)
block = replicate 4 (record { key = 0; val = 0 })

abbrev blank : List (Option ℕ)
blank = some 7 ∷ none ∷ some 0 ∷ some 2 ∷ []

abbrev empty : PQueue ℕ
empty = record {
  nnodes = 0;
  maxnodes = 4;
  arrays = record { heap = block; locator = replicate 4 none };
}

made_empty : init 4 none (inr block) (inr blank) ≡ ok tt empty
unfolding program
made_empty = refl

-- Without an array for the locator nothing is left.
refused_locator : init 4 none (inr block) (inl unset) ≡ raised sigmem enomem no_queue
unfolding program
refused_locator = refl

-- Three insertions, an update and the node with the greatest key.
abbrev session : Option (Option ℕ)
session = do
  q ← insert empty 0 5
  q ← insert q 1 9
  q ← insert q 2 7
  q ← update q 0 8
  q ← delete q 1
  (top, q) ← get_top q
  some top

session_top : session ≡ some (some 0)
unfolding program
session_top = refl

minus_ones : (v : ℕ) → get_or empty.arrays.locator v none ≡ none
minus_ones v = get_or-replicate 4 v none

empty_queue : Means (λ _. none) empty
empty_queue = empty-Means 4 block empty.arrays.locator refl refl minus_ones

inserted :
    (r : PQueue ℕ) × (insert empty 2 7 ≡ some r)
    × Means (put 2 7 (λ _. none)) r
    × (r.nnodes ≡ empty.nnodes + 1)
    × (r.maxnodes ≡ empty.maxnodes)
inserted = insert-Means 2 7 empty_queue (omega arith) (omega arith) refl

insert-Means_example :
    (r : PQueue ℕ) × (insert empty 2 7 ≡ some r)
    × Means (put 2 7 (λ _. none)) r
    × (r.nnodes ≡ empty.nnodes + 1)
    × (r.maxnodes ≡ empty.maxnodes)
insert-Means_example = insert-Means 2 7 empty_queue (omega arith) (omega arith) refl

abbrev one : PQueue ℕ
one = inserted.0

abbrev seven : ℕ → Option ℕ
seven = put 2 7 (λ _. none)

one-Means : Means seven one
one-Means = inserted.2

update-Means_example :
    (r : PQueue ℕ) × (update one 2 9 ≡ some r)
    × (((r ≡ one) × (ltb 7 9 ≡ false) × (ltb 9 7 ≡ false))
        ⊎ (((ltb 7 9 ≡ true) ⊎ (ltb 9 7 ≡ true))
            × Means (put 2 9 seven) r
            × (r.nnodes ≡ one.nnodes)))
update-Means_example = update-Means 2 9 7 one-Means refl

delete-Means_example :
    (r : PQueue ℕ) × (delete one 2 ≡ some r)
    × Means (del 2 seven) r
    × (r.nnodes + 1 ≡ one.nnodes)
    × (r.maxnodes ≡ one.maxnodes)
delete-Means_example = delete-Means 2 7 one-Means refl (omega (arith, inserted.4))

get_top-Means_example :
    (top : ℕ) × (k : ℕ) × (r : PQueue ℕ) × (get_top one ≡ some (some top, r))
    × IsTop seven top k
    × Means (del top seven) r
    × (r.nnodes + 1 ≡ one.nnodes)
    × (r.maxnodes ≡ one.maxnodes)
get_top-Means_example = get_top-Means one-Means (omega (arith, inserted.3))

see-Means_example :
    ((one.nnodes ≡ 0) × (see_top_val one ≡ some none) × (see_top_key one ≡ some (2 ^ 31 - 1)))
    ⊎ ((top : ℕ) × (k : ℕ) × (see_top_val one ≡ some (some top))
        × (see_top_key one ≡ some k)
        × IsTop seven top k)
see-Means_example = see-Means one-Means

reset-Means_example :
    (r : PQueue ℕ) × (reset one ≡ some r)
    × Means (λ _. none) r
    × (r.nnodes ≡ 0)
    × (r.maxnodes ≡ one.maxnodes)
reset-Means_example = reset-Means one-Means
