-- ===== src/Tracker/Alloc.antt =====
-- `gk_malloc_nosignal`, `gk_realloc_nosignal` and `gk_free_nosignal` on an active tracker.
use gklib.Base.{
  ℕ, ◌+◌, ◌-◌, ◌^◌, ◌≤◌, ◌<◌, ◌≡◌, refl, inl, inr, ◌⊎◌, Bool, true, false, ◌==◌, ==_iff, Bool-cases,
  Option-cases, Option, none, some, get_elem?, set, tally, num, arith, if◌then◌else◌, length-set,
}
use gklib.Base.Outcome.{einval, eoverflow, ok}
use gklib.Mcore.{mopt_heap, Mop, Mcore, Pointer, on_heap, plus, minus, take_out}
use gklib.Mcore.State.{heap_of, heap_bytes}
use gklib.Tracker.{
  System, find_quiet, can_realloc, at_least_one, malloc_nosignal, move_block, realloc_found,
  realloc_nosignal, free_found, free_nosignal,
}
use gklib.Tracker.Bags.{
  Absent, find_quiet-Absent, find_quiet-present, Found, Found-at, heap_bytes-set, tally-set,
  heap_bytes-take_out, tally-take_out, length-take_out,
}
use gklib.Tracker.State.{IsTracker, Ends, Same, Asked, Added, Fits, Declined, track_block-Ends}

at_least_one-Asked : (n : ℕ) → Asked n (at_least_one n)
at_least_one-Asked n = elim (Bool-cases (n == 0)) [
  | inl e ↦ rw e (inl ((==_iff n 0).0 e, refl))
  | inr e ↦ rw e (inr (ground (arith, e), refl))
]

-- `gk_malloc_nosignal` on a well-formed tracker, whatever memory is granted: it asks the C library's
-- malloc for the bytes of the request, for one byte if the request is of none. It gives the block that
-- malloc answers and adds exactly one record, of this block and its bytes; or it returns NULL and
-- keeps every record, which happens only where malloc has no block, an account would pass its type or
-- the size is over PTRDIFF_MAX, or the array of records is full and cannot
-- grow. The tracked total stays that of the records.
pub malloc_nosignal-Ends :
    (y : System) (c : Mcore) (n : ℕ)
    → IsTracker c
    → (size : ℕ) × (Asked n size
        × Ends
            (Added c size (y.malloc size))
            (λ _ c'. Declined y c size (y.malloc size) c')
            (malloc_nosignal y (some c) n))
unfolding malloc_nosignal
malloc_nosignal-Ends y c n w = (
  at_least_one n,
  (at_least_one-Asked n, track_block-Ends y c (at_least_one n) (y.malloc (at_least_one n)) w),
)

-- Exactly one heap record of the pointer is gone.
pub record Freed (c : Mcore) (p : Pointer) (c' : Mcore) : Type 0 where
  pub whole : IsTracker c'
  pub mop : Mop
  pub kind : mop.kind ≡ mopt_heap
  pub ptr : mop.ptr ≡ p
  pub others : (test : Mop → Bool) → tally test c'.mops + num (test mop) ≡ tally test c.mops
  pub tracked : Absent p c.mops → ⊥

-- No heap record above the last mark is of the pointer, and nothing changes.
abbrev pub NotTracked : Mcore → Pointer → Mcore → Type 0
NotTracked c p c' = Absent p c.mops × (c' ≡ c)

-- The bytes of a heap record that was found.
heap_size : (m : Mop) → m.kind ≡ mopt_heap → heap_of m.kind m.nbytes ≡ m.nbytes
heap_size m e = rw e refl

less_current : (total n rest : ℕ) → total < 2 ^ 64 → rest + n ≡ total → minus total n ≡ rest
less_current total n rest b e = omega arith

free-none :
    (c : Mcore) (p : Pointer)
    → find_quiet p 0 c.mops ≡ none
    → free_found c p ≡ ok (inl einval) (some c)
unfolding free_found
free-none c p e = rw (e, free_found) refl

free-some :
    (c : Mcore) (p : Pointer) (k : ℕ) (m : Mop)
    → find_quiet p 0 c.mops ≡ some k
    → get_elem? c.mops k ≡ some m
    → free_found c p
      ≡ ok
          (inr tt)
          (some (record c { cur_hallocs = minus c.cur_hallocs m.nbytes; mops = take_out k c.mops }))
unfolding free_found
free-some c p k m e f = rw (e, f, free_found) refl

free_found-Ends :
    (c : Mcore) (p : Pointer)
    → IsTracker c
    → Ends (λ _ c'. Freed c p c') (λ _ c'. NotTracked c p c') (free_found c p)
free_found-Ends c p w = elim (Option-cases (find_quiet p 0 c.mops)) [
  | inl e ↦ rw (free-none c p e) (find_quiet-Absent p 0 c.mops e, refl)
  | inr (k, e) ↦
      let f = Found-at p c.mops k e in
      let bytes = heap_bytes-take_out c.mops k f.mop f.at in
      let size = heap_size f.mop f.kind in
      rw (free-some c p k f.mop e f.at) record {
        whole = record {
          current =
              less_current c.cur_hallocs f.mop.nbytes (heap_bytes (take_out k c.mops)) w.counted
                (omega (arith, bytes, size, w.current));
          counted = omega arith;
          room = omega (arith, length-take_out c.mops k f.mop f.at, w.room);
        };
        mop = f.mop;
        kind = f.kind;
        ptr = f.ptr;
        others = λ test. tally-take_out test c.mops k f.mop f.at;
        tracked = find_quiet-present p 0 c.mops k e;
      }
]

-- `gk_free_nosignal` of a block on a well-formed tracker: where a heap record above the last mark is of
-- the block, it takes out exactly one heap record of the block, and its bytes; where none is, it
-- returns 0 and changes nothing.
pub free_nosignal-Ends :
    (c : Mcore) (a : ℕ)
    → IsTracker c
    → Ends
        (λ _ c'. Freed c (on_heap a) c')
        (λ _ c'. NotTracked c (on_heap a) c')
        (free_nosignal (some c) (some (on_heap a)))
unfolding free_nosignal
free_nosignal-Ends c a w = free_found-Ends c (on_heap a) w

-- The block `q` that the C library answers is given, and one heap record of the pointer `p` is now of
-- this block with `n` bytes.
pub record Moved (c : Mcore) (p : Pointer) (n : ℕ) (answer : Option ℕ) (q : Pointer) (c' : Mcore)
    : Type 0 where
  pub whole : IsTracker c'
  pub block : ℕ
  pub answered : answer ≡ some block
  pub given : q ≡ on_heap block
  pub mop : Mop
  pub kind : mop.kind ≡ mopt_heap
  pub ptr : mop.ptr ≡ p
  pub others :
      (test : Mop → Bool)
      → tally test c'.mops + num (test mop)
        ≡ tally test c.mops + num (test (record mop { nbytes = n; ptr = on_heap block }))

-- Every record is kept, and there is a reason: no heap record above the last mark is of the pointer,
-- the C library has no block, or the accounts cannot count the new size of a heap record of it.
abbrev pub NotMoved : Mcore → Pointer → ℕ → Option ℕ → Mcore → Type 0
NotMoved c p n answer c' =
    Same c c'
    × (Absent p c.mops
        ⊎ ((answer ≡ none)
            ⊎ ((k : ℕ) × ((f : Found p c.mops k) × (Fits c (c.cur_hallocs - f.mop.nbytes) n → ⊥)))))

can_realloc-Fits :
    (c : Mcore) (old n : ℕ)
    → can_realloc c old n ≡ false
    → old ≤ c.cur_hallocs
    → c.cur_hallocs < 2 ^ 64
    → Fits c (c.cur_hallocs - old) n
    → ⊥
unfolding can_realloc
can_realloc-Fits c old n h l b (x, (y, (z, t))) = ground arith

held_bytes :
    (c : Mcore) (p : Pointer) (k : ℕ)
    → IsTracker c
    → (f : Found p c.mops k) → f.mop.nbytes ≤ c.cur_hallocs
held_bytes c p k w f =
    omega (arith, heap_bytes-take_out c.mops k f.mop f.at, heap_size f.mop f.kind, w.current)

can_realloc-fits :
    (c : Mcore) (old n : ℕ)
    → can_realloc c old n ≡ true
    → old ≤ c.cur_hallocs
    → c.cur_hallocs < 2 ^ 64
    → c.cur_hallocs - old + n < 2 ^ 64
unfolding can_realloc
can_realloc-fits c old n h l b = ground arith

renewed :
    (total old n after : ℕ)
    → old ≤ total
    → total < 2 ^ 64
    → total - old + n < 2 ^ 64
    → after + old ≡ total + n
    → plus (minus total old) n ≡ after
renewed total old n after l b f e = omega arith

move_block-Ends :
    (c : Mcore) (p : Pointer) (k n : ℕ) (block : Option ℕ)
    → IsTracker c
    → (f : Found p c.mops k) → can_realloc c f.mop.nbytes n ≡ true
    → Ends
        (λ q c'. Moved c p n block q c')
        (λ _ c'. NotMoved c p n block c')
        (move_block c k f.mop n block)
move_block-Ends c p k n none w f h = ((w, (c.nmops, refl)), inr (inl refl))
move_block-Ends c p k n (some a) w f h =
    let size = heap_size f.mop f.kind in
    let held : f.mop.nbytes ≤ c.cur_hallocs =
      omega (arith, heap_bytes-take_out c.mops k f.mop f.at, size, w.current) in
    let new : Mop = record f.mop { nbytes = n; ptr = on_heap a } in
    record {
      whole = record {
        current =
            renewed c.cur_hallocs f.mop.nbytes n (heap_bytes (set c.mops k new)) held w.counted
              (can_realloc-fits c f.mop.nbytes n h held w.counted)
              (omega (
                arith,
                heap_bytes-set c.mops k f.mop new f.at,
                size,
                heap_size new f.kind,
                w.current,
              ));
        counted = omega arith;
        room = omega (arith, length-set c.mops k new, w.room);
      };
      block = a;
      answered = refl;
      given = refl;
      mop = f.mop;
      kind = f.kind;
      ptr = f.ptr;
      others = λ test. tally-set test c.mops k f.mop new f.at;
    }

realloc-none :
    (y : System) (c : Mcore) (p : Pointer) (n : ℕ)
    → find_quiet p 0 c.mops ≡ none
    → realloc_found y c p n ≡ ok (inl einval) (some c)
unfolding realloc_found
realloc-none y c p n e = rw (e, realloc_found) refl

realloc-some :
    (y : System) (c : Mcore) (p : Pointer) (n k : ℕ) (m : Mop)
    → find_quiet p 0 c.mops ≡ some k
    → get_elem? c.mops k ≡ some m
    → realloc_found y c p n ≡ (
        if can_realloc c m.nbytes n
        then move_block c k m n (y.realloc p n)
        else ok (inl eoverflow) (some c))
unfolding realloc_found
realloc-some y c p n k m e f = rw (e, f, realloc_found) refl

-- `gk_realloc_nosignal` of a block on a well-formed tracker, whatever memory is granted: it asks the C
-- library's realloc for the bytes of the request, for one byte if the request is of none. It gives the
-- block that realloc answers and turns exactly one heap record of the old block into the record of
-- this block and its bytes; or it returns NULL and keeps every record, which happens only where no
-- heap record above the last mark is of the old block, realloc has no block, or an account would pass
-- its type or the size is over PTRDIFF_MAX. The tracked total stays that of the records.
pub realloc_nosignal-Ends :
    (y : System) (c : Mcore) (a n : ℕ)
    → IsTracker c
    → (size : ℕ) × (Asked n size
        × Ends
            (λ q c'. Moved c (on_heap a) size (y.realloc (on_heap a) size) q c')
            (λ _ c'. NotMoved c (on_heap a) size (y.realloc (on_heap a) size) c')
            (realloc_nosignal y (some c) (on_heap a) n))
unfolding realloc_nosignal
realloc_nosignal-Ends y c a n w =
    let p : Pointer = on_heap a in
    let size = at_least_one n in
    (
      size,
      (
        at_least_one-Asked n,
        elim (Option-cases (find_quiet p 0 c.mops)) [
          | inl e ↦
              rw (realloc-none y c p size e)
                ((w, (c.nmops, refl)), inl (find_quiet-Absent p 0 c.mops e))
          | inr (k, e) ↦
              let f = Found-at p c.mops k e in
              rw (realloc-some y c p size k f.mop e f.at)
                (elim (Bool-cases (can_realloc c f.mop.nbytes size)) [
                  | inl h ↦ rw h (move_block-Ends c p k size (y.realloc p size) w f h)
                  | inr h ↦
                      let never =
                        can_realloc-Fits c f.mop.nbytes size h (held_bytes c p k w f) w.counted in
                      rw h ((w, (c.nmops, refl)), inr (inr (k, (f, never))))
                ])
        ],
      ),
    )
