-- ===== src/Tracker/Tests.antt =====
-- Runs of the tracker on a stack with a mark and two blocks, and the theorems at it.
use gklib.Base.{ℕ, true, ◌+◌, ◌≡◌, refl, inl, inr, none, some, [], ◌∷◌, arith}
use gklib.Base.Outcome.{einval, ok}
use gklib.Base.Size.{size_add, size_mul}
use gklib.Mcore.{can_add, mopt_mark, mopt_heap, null, on_heap, Mop, Mcore, next_nmops}
use gklib.Mcore.Create.{created}
use gklib.Tracker.{
  System, ensure_capacity, add_reserved, find_quiet, can_track, can_realloc, track_block,
  malloc_nosignal, realloc_found, realloc_nosignal, free_found, free_nosignal,
}
use gklib.Tracker.Ops.{add_known, add, push, pop_loop, pop, create, malloc_init, malloc_cleanup}
use gklib.Tracker.Close.{Tracks, left_with, pop-Left}
use gklib.Mcore.Frames.{unframe}
use gklib.Tracker.State.{IsTracker, Ends, Asked, Added, Declined}
use gklib.Tracker.Alloc.{
  Freed, NotTracked, Moved, NotMoved, malloc_nosignal-Ends, free_nosignal-Ends,
  realloc_nosignal-Ends,
}

program : Unit {0}
unfolding size_add size_mul next_nmops ensure_capacity add_reserved find_quiet can_track can_realloc
    track_block malloc_nosignal realloc_found realloc_nosignal free_found free_nosignal add_known
    add push pop_loop pop create malloc_init malloc_cleanup can_add
program = tt

abbrev system : System
system = record {
  grow = λ _. none;
  malloc = λ n. some (1000 + n);
  realloc = λ _ n. some (2000 + n);
}

abbrev older_block : Mop
older_block = record { kind = mopt_heap; nbytes = 16; ptr = on_heap 7 }

abbrev newer_block : Mop
newer_block = record { kind = mopt_heap; nbytes = 40; ptr = on_heap 8 }

abbrev bottom_mark : Mop
bottom_mark = record { kind = mopt_mark; nbytes = 0; ptr = null }

abbrev two_blocks : Mcore
two_blocks = record (created 0) {
  mops = newer_block ∷ older_block ∷ bottom_mark ∷ [];
  num_hallocs = 2;
  size_hallocs = 56;
  cur_hallocs = 56;
  max_hallocs = 56;
}

two_blocks-IsTracker : IsTracker two_blocks
two_blocks-IsTracker = record { current = refl; counted = omega arith; room = omega arith }

-- The newest record takes the place of the one that is taken out.
freed :
    free_nosignal (some two_blocks) (some (on_heap 7))
    ≡ ok
        (inr tt)
        (some (record two_blocks { mops = newer_block ∷ bottom_mark ∷ []; cur_hallocs = 40 }))
unfolding program
freed = refl

unknown_block :
    free_nosignal (some two_blocks) (some (on_heap 9)) ≡ ok (inl einval) (some two_blocks)
unfolding program
unknown_block = refl

malloc_nosignal-Ends_example :
    (size : ℕ) × (Asked 0 size
      × Ends
          (Added two_blocks size (system.malloc size))
          (λ _ c'. Declined system two_blocks size (system.malloc size) c')
          (malloc_nosignal system (some two_blocks) 0))
malloc_nosignal-Ends_example = malloc_nosignal-Ends system two_blocks 0 two_blocks-IsTracker

free_nosignal-Ends_example :
    Ends
      (λ _ c'. Freed two_blocks (on_heap 7) c')
      (λ _ c'. NotTracked two_blocks (on_heap 7) c')
      (free_nosignal (some two_blocks) (some (on_heap 7)))
free_nosignal-Ends_example = free_nosignal-Ends two_blocks 7 two_blocks-IsTracker

realloc_nosignal-Ends_example :
    (size : ℕ) × (Asked 100 size
      × Ends
          (λ q c'. Moved two_blocks (on_heap 7) size (system.realloc (on_heap 7) size) q c')
          (λ _ c'. NotMoved two_blocks (on_heap 7) size (system.realloc (on_heap 7) size) c')
          (realloc_nosignal system (some two_blocks) (on_heap 7) 100))
realloc_nosignal-Ends_example = realloc_nosignal-Ends system two_blocks 7 100 two_blocks-IsTracker

-- The first frame opens the tracker, and its end closes it.
opened_tracker :
    malloc_init system none ≡ ok true (some (record (created 0) { mops = bottom_mark ∷ [] }))
unfolding program
opened_tracker = refl

closed_tracker : malloc_cleanup true (some two_blocks) ≡ ok tt none
unfolding program
closed_tracker = refl

two_blocks-Tracks : Tracks two_blocks.mops
two_blocks-Tracks = (
  ((λ e. ground arith), (λ e. ground arith)),
  (((λ e. ground arith), (λ e. ground arith)), (((λ e. ground arith), (λ e. ground arith)), tt)),
)

pop-Left_example : pop true two_blocks ≡ ok tt (left_with two_blocks (unframe two_blocks.mops))
pop-Left_example = pop-Left true two_blocks two_blocks-IsTracker two_blocks-Tracks
