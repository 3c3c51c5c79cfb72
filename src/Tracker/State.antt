-- ===== src/Tracker/State.antt =====
-- The invariant of the tracker: its total is that of the blocks that it records.
use gklib.Base.{
  ℕ, ◌+◌, ◌^◌, ◌≤◌, ◌<◌, ◌≡◌, refl, ◌⊎◌, inl, inr, true, false, Bool-cases, Option, none, some, ◌∷◌,
  length, arith, ltb, lt→ltb, ltb→lt,
}
use gklib.Base.Outcome.{Errno, ok, raised, fault}
use gklib.Base.Size.{size_max, ptrdiff_max}
use gklib.Mcore.{Mop, Mcore, Pointer, on_heap}
use gklib.Mcore.State.{Stuck, capacity-cases, heap_bytes, heap_mop}
use gklib.Tracker.{
  System, Tracked, ensure_capacity, add_reserved, count_heap, can_track, record_block, with_slot,
  track_block,
}

pub record IsTracker (c : Mcore) : Type 0 where
  pub current : c.cur_hallocs ≡ heap_bytes c.mops
  pub counted : c.cur_hallocs < 2 ^ 64
  pub room : length c.mops ≤ c.nmops

-- A call on an active tracker returns a value, or an `errno`, with a state that is as said.
abbrev pub Ends :
    {A : Type 0} → (A → Mcore → Type 0) → (Errno → Mcore → Type 0) → Tracked A → Type 0
Ends Done Refused (ok (inr a) (some c)) = Done a c
Ends Done Refused (ok (inl e) (some c)) = Refused e c
Ends Done Refused (ok (inr a) none) = ⊥
Ends Done Refused (ok (inl e) none) = ⊥
Ends Done Refused (raised s e t) = ⊥
Ends Done Refused fault = ⊥

-- At most the capacity of the records differs.
abbrev pub Same : Mcore → Mcore → Type 0
Same c c' = IsTracker c' × ((k : ℕ) × (c' ≡ record c { nmops = k }))

-- The size of a block for a request of `n` bytes: one byte for a request of none.
abbrev pub Asked : ℕ → ℕ → Type 0
Asked n size = ((n ≡ 0) × (size ≡ 1)) ⊎ ((0 < n) × (size ≡ n))

-- The block that the C library answers is given, and there is one record more, of this block.
abbrev pub Added : Mcore → ℕ → Option ℕ → Pointer → Mcore → Type 0
Added c n answer p c' =
    IsTracker c'
    × ((a : ℕ) × ((answer ≡ some a) × ((p ≡ on_heap a) × (c'.mops ≡ heap_mop n a ∷ c.mops))))

-- The accounts can count `n` bytes more where `held` are held.
abbrev pub Fits : Mcore → ℕ → ℕ → Type 0
Fits c held n =
    (n ≤ ptrdiff_max)
    × ((c.num_hallocs < size_max) × ((c.size_hallocs + n ≤ size_max) × (held + n ≤ size_max)))

-- Every record is kept, and there is a reason: the C library has no block, the accounts cannot count
-- it, or the array of records is full and cannot grow.
abbrev pub Declined : System → Mcore → ℕ → Option ℕ → Mcore → Type 0
Declined y c n answer c' =
    Same c c' × ((answer ≡ none) ⊎ ((Fits c c.cur_hallocs n → ⊥) ⊎ Stuck y.grow c))

can_track-Fits : (c : Mcore) (n : ℕ) → can_track c n ≡ false → Fits c c.cur_hallocs n → ⊥
unfolding can_track
can_track-Fits c n h (a, (b, (d, e))) = ground arith

pub can_track-fits : (c : Mcore) (n : ℕ) → can_track c n ≡ true → c.cur_hallocs + n < 2 ^ 64
unfolding can_track
can_track-fits c n h = ground arith

regrown : (c : Mcore) (k : ℕ) → IsTracker c → length c.mops < k → IsTracker (record c { nmops = k })
regrown c k w l = record { current = w.current; counted = w.counted; room = omega arith }

add_reserved-room :
    (c : Mcore) (m : Mop)
    → length c.mops < c.nmops
    → add_reserved c m ≡ ok tt (count_heap m.kind m.nbytes (record c { mops = m ∷ c.mops }))
unfolding add_reserved
add_reserved-room c m h = rw (lt→ltb _ _ h) refl

record_block-Ends :
    (y : System) (c : Mcore) (k n : ℕ) (block : Option ℕ)
    → IsTracker c
    → length c.mops < k
    → c.cur_hallocs + n < 2 ^ 64
    → Ends
        (Added c n block)
        (λ _ c'. Declined y c n block c')
        (record_block (record c { nmops = k }) n block)
record_block-Ends y c k n none w l b = ((regrown c k w l, (k, refl)), inl refl)
record_block-Ends y c k n (some a) w l b =
    rw (add_reserved-room (record c { nmops = k }) (heap_mop n a) l) (
      record { current = omega (arith, w.current); counted = omega arith; room = omega arith },
      (a, (refl, (refl, refl))),
    )

with_slot-Ends :
    (y : System) (c : Mcore) (n : ℕ) (block : Option ℕ)
    → IsTracker c
    → c.cur_hallocs + n < 2 ^ 64
    → Ends
        (Added c n block)
        (λ _ c'. Declined y c n block c')
        (with_slot n block (ensure_capacity y c))
unfolding ensure_capacity
with_slot-Ends y c n block w b = elim (Bool-cases (ltb (length c.mops) c.nmops)) [
  | inl e ↦ rw e (record_block-Ends y c c.nmops n block w (ltb→lt _ _ e) b)
  | inr e ↦
      let full : Stuck y.grow c → Declined y c n block c =
        λ x. ((w, (c.nmops, refl)), inr (inr x)) in
      rw e (elim (capacity-cases y.grow c e w.room) [
        | inl (g, x) ↦ rw g (full x)
        | inr (k, (g, (l, inl (z, x)))) ↦ rw (g, z) (full x)
        | inr (k, (g, (l, inr (z, inl r)))) ↦ rw (g, z, r) (record_block-Ends y c k n block w l b)
        | inr (k, (g, (l, inr (z, inr (_, (r, x)))))) ↦ rw (g, z, r) (full x)
      ])
]

pub track_block-Ends :
    (y : System) (c : Mcore) (n : ℕ) (block : Option ℕ)
    → IsTracker c
    → Ends (Added c n block) (λ _ c'. Declined y c n block c') (track_block y c n block)
unfolding track_block
track_block-Ends y c n block w = elim (Bool-cases (can_track c n)) [
  | inl a ↦ rw a (with_slot-Ends y c n block w (can_track-fits c n a))
  | inr a ↦ rw a ((w, (c.nmops, refl)), inr (inl (can_track-Fits c n a)))
]
