-- ===== src/Mcore/Tests.antt =====
-- Runs of an mcore with a core of 64 bytes, and the theorems at concrete mcores.
use gklib.Base.{◌+◌, ◌≡◌, refl, inr, none, some, [], ◌∷◌, arith}
use gklib.Base.Outcome.{ok}
use gklib.Base.Size.{size_add, size_mul}
use gklib.Mcore.{
  mopt_mark, mopt_core, mopt_heap, null, in_core, on_heap, Mcore, Heap, can_add, next_nmops,
  ensure_capacity, add_reserved, add, push, create, padding, source_of, malloc_padded, malloc,
  pop_loop, pop, seek, del,
}
use gklib.Mcore.State.{IsMcore, Ends}
use gklib.Mcore.Malloc.{Served, RefusedFor, malloc-Ends}
use gklib.Mcore.Create.{created, created-IsMcore, create-IsMcore}
use gklib.Mcore.Session.{Runs, Restored, push-pop-Restored}

program : Unit {0}
unfolding size_add size_mul can_add next_nmops ensure_capacity add_reserved add push create padding
    source_of malloc_padded malloc pop_loop pop seek del
program = tt

abbrev generous : Heap
generous = record {
  reserve = λ _. none;
  grow = λ _. none;
  malloc = λ n. inr (1000 + n);
  free = λ _. none;
}

-- The state after a push and two allocations, the second of which the core has no room for.
abbrev after_two : Mcore
after_two = record (created 64) {
  corecpos = 24;
  mops =
      record { kind = mopt_heap; nbytes = 48; ptr = on_heap 1048 }
      ∷ record { kind = mopt_core; nbytes = 24; ptr = in_core 0 }
      ∷ record { kind = mopt_mark; nbytes = 0; ptr = null }
      ∷ [];
  num_callocs = 1;
  num_hallocs = 1;
  size_callocs = 24;
  size_hallocs = 48;
  cur_callocs = 24;
  cur_hallocs = 48;
  max_callocs = 24;
  max_hallocs = 48;
}

abbrev after_one : Mcore
after_one = record (created 64) {
  corecpos = 24;
  mops =
      record { kind = mopt_core; nbytes = 24; ptr = in_core 0 }
      ∷ record { kind = mopt_mark; nbytes = 0; ptr = null }
      ∷ [];
  num_callocs = 1;
  size_callocs = 24;
  cur_callocs = 24;
  max_callocs = 24;
}

abbrev after_push : Mcore
after_push = record (created 64) { mops = record { kind = mopt_mark; nbytes = 0; ptr = null } ∷ [] }

pushed : push generous (created 64) ≡ ok tt after_push
unfolding program
pushed = refl

first : malloc generous after_push 20 ≡ ok (in_core 0) after_one
unfolding program
first = refl

second : malloc generous after_one 41 ≡ ok (on_heap 1048) after_two
unfolding program
second = refl

-- Deleting the heap block takes its record out.
deleted :
    del after_two (on_heap 1048)
    ≡ ok tt (record after_two { mops = after_one.mops; cur_hallocs = 0 })
unfolding program
deleted = refl

abbrev two_allocations : Runs after_push after_two
two_allocations =
    Runs.allocated generous 20 (in_core 0) first
      (Runs.allocated generous 41 (on_heap 1048) second Runs.done)

push-pop-Restored_example :
    (d : Mcore) × ((pop generous after_two ≡ ok tt d) × Restored (created 64) d)
push-pop-Restored_example =
    push-pop-Restored generous generous (created-IsMcore 64 (omega arith)) pushed two_allocations
      (λ _. refl)

malloc-Ends_example :
    Ends
      (Served generous (created 64) 20)
      (RefusedFor generous (created 64) 20)
      (malloc generous (created 64) 20)
malloc-Ends_example = malloc-Ends generous (created 64) 20 (created-IsMcore 64 (omega arith))

create-IsMcore_example :
    (c : Mcore) × ((create generous 64 ≡ ok tt (some c))
      × (IsMcore c × ((c.coresize ≡ 64) × (c.mops ≡ []))))
create-IsMcore_example = create-IsMcore generous 64 (omega arith) (λ _. refl)
