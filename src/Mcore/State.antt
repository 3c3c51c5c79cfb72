-- ===== src/Mcore/State.antt =====
-- The invariant of an mcore: the accounts agree with the records, and every block of the core lies
-- below the free position of its frame.
use gklib.Base.{
  ℕ, ◌+◌, ◌%◌, ◌^◌, ◌≤◌, ◌<◌, ◌≡◌, ◌≢◌, refl, sym, ◌⊎◌, ◌*◌, ◌-◌, Option, none, leb, false, ◌==◌,
  ==_iff, inl, inr, some, List, [], ◌∷◌, length, arith, ltb, Bool-cases, Option-cases, ltb→lt,
  lt→ltb,
}
use gklib.Base.Outcome.{ok, raised, fault, and_then}
use gklib.Base.Size.{size_add, size_mul, size_max, size_mul-eq-some, size_mul-overflow}
use gklib.Mcore.{
  MopType, mopt_mark, mopt_core, mopt_heap, mopt_other, null, in_core, on_heap, Mop, Mcore, Heap,
  Call, next_nmops, ensure_capacity, count, add_reserved,
}

-- The bytes of the core, and of the heap, that a record stands for.
abbrev pub core_of : MopType → ℕ → ℕ
core_of mopt_core n = n
core_of mopt_mark n = 0
core_of mopt_heap n = 0
core_of mopt_other n = 0

abbrev pub heap_of : MopType → ℕ → ℕ
heap_of mopt_heap n = n
heap_of mopt_mark n = 0
heap_of mopt_core n = 0
heap_of mopt_other n = 0

abbrev pub core_bytes : List Mop → ℕ
core_bytes [] = 0
core_bytes (m ∷ ms) = core_of m.kind m.nbytes + core_bytes ms

abbrev pub heap_bytes : List Mop → ℕ
heap_bytes [] = 0
heap_bytes (m ∷ ms) = heap_of m.kind m.nbytes + heap_bytes ms

-- A record of the core has an aligned block that ends at `top` at the latest.
abbrev pub Sits : ℕ → Mop → Type 0
Sits top m =
    m.kind ≡ mopt_core
    → (o : ℕ) × ((m.ptr ≡ in_core o) × ((o + m.nbytes ≤ top) × ((o % 8 ≡ 0) × (m.nbytes % 8 ≡ 0))))

abbrev pub AllSit : ℕ → List Mop → Type 0
AllSit top [] = Unit {0}
AllSit top (m ∷ ms) = Sits top m × AllSit top ms

-- Below each mark the blocks end at the bytes of the records below it.
abbrev pub Framed : List Mop → Type 0
Framed [] = Unit {0}
Framed (m ∷ ms) = (m.kind ≡ mopt_mark → AllSit (core_bytes ms) ms) × Framed ms

-- Every record is one of the three kinds.
abbrev pub Known : List Mop → Type 0
Known [] = Unit {0}
Known (m ∷ ms) = (m.kind ≢ mopt_other) × Known ms

pub record IsMcore (c : Mcore) : Type 0 where
  pub small : c.coresize < 2 ^ 64
  pub position : c.corecpos ≡ core_bytes c.mops
  pub core_current : c.cur_callocs ≡ core_bytes c.mops
  pub heap_current : c.cur_hallocs ≡ heap_bytes c.mops
  pub inside : c.corecpos ≤ c.coresize
  pub counted : c.cur_hallocs < 2 ^ 64
  pub room : length c.mops ≤ c.nmops
  pub seated : AllSit c.corecpos c.mops
  pub framed : Framed c.mops
  pub known : Known c.mops

-- A call returns in a state that `Returned` holds of, or raises in one that `Left` holds of.
abbrev pub Ends : {A : Type 0} → (A → Mcore → Type 0) → (Mcore → Type 0) → Call A → Type 0
Ends Returned Left (ok a c) = Returned a c
Ends Returned Left (raised s e c) = Left c
Ends Returned Left fault = ⊥

pub and_then-Ends :
    {A B : Type 0} (P : A → Mcore → Type 0) (Q : B → Mcore → Type 0) (Left : Mcore → Type 0)
    (o : Call A) (f : A → Mcore → Call B)
    → Ends P Left o
    → ((a : A) (c : Mcore) → P a c → Ends Q Left (f a c))
    → Ends Q Left (and_then o f)
and_then-Ends P Q Left (ok a c) f h k = k a c h
and_then-Ends P Q Left (raised s e c) f h k = h
and_then-Ends P Q Left fault f h k = absurd h

pub AllSit-mono : (a b : ℕ) (ms : List Mop) → a ≤ b → AllSit a ms → AllSit b ms
AllSit-mono a b [] h s = tt
AllSit-mono a b (m ∷ ms) h (s, ss) = (
  (λ e. let t = s e in (t.0, (t.1.0, (omega (arith, t.1.1.0), t.1.1.1)))),
  AllSit-mono a b ms h ss,
)

-- Nothing but the capacity differs.
abbrev pub Regrown : Mcore → Mcore → Type 0
Regrown c c' = (k : ℕ) × ((c' ≡ record c { nmops = k }) × (length c.mops < k))

-- The capacity that follows `n`.
abbrev pub Next : ℕ → ℕ → Type 0
Next n k = ((n ≡ 0) × (k ≡ 2048)) ⊎ ((0 < n) × (k ≡ n + n))

-- The array of records is full, and twice its size passes `size_t` or `grow` refuses the next size.
abbrev pub Stuck : {E : Type 0} → (ℕ → Option E) → Mcore → Type 0
Stuck {E} grow c =
    (c.nmops ≤ length c.mops)
    × ((size_max < c.nmops * 48)
        ⊎ ((k : ℕ) × (Next c.nmops k × ((e : E) × (grow (k * 24) ≡ some e)))))

next_nmops-Next :
    (n : ℕ)
    → ((next_nmops n ≡ none) × (size_max < n * 48))
      ⊎ ((k : ℕ) × ((next_nmops n ≡ some k) × Next n k))
unfolding next_nmops size_add
next_nmops-Next n = elim (Bool-cases (n == 0)) [
  | inl z ↦ rw z (inr (2048, (refl, inl ((==_iff n 0).0 z, refl))))
  | inr z ↦ rw z (elim (Bool-cases (ltb (size_max - n) n)) [
    | inl o ↦ rw o (inl (refl, ground (arith, o)))
    | inr o ↦ rw o (inr (n + n, (refl, inr (ground (arith, z), refl))))
  ])
]

size_mul-cases :
    (k : ℕ) → ((size_mul k 24 ≡ none) × (size_max < k * 24)) ⊎ (size_mul k 24 ≡ some (k * 24))
size_mul-cases k = elim (Bool-cases (leb (k * 24) size_max)) [
  | inl h ↦ inr (size_mul-eq-some k 24 (ground (arith, h)))
  | inr h ↦
      let large : size_max < k * 24 = ground (arith, h) in inl (size_mul-overflow k 24 large, large)
]

-- The array of records has room, it is stuck, or its next capacity is given.
pub capacity-cases :
    {E : Type 0} (grow : ℕ → Option E) (c : Mcore)
    → ltb (length c.mops) c.nmops ≡ false
    → length c.mops ≤ c.nmops
    → ((next_nmops c.nmops ≡ none) × Stuck grow c)
      ⊎ ((k : ℕ) × ((next_nmops c.nmops ≡ some k)
            × ((length c.mops < k)
                × (((size_mul k 24 ≡ none) × Stuck grow c)
                    ⊎ ((size_mul k 24 ≡ some (k * 24))
                        × ((grow (k * 24) ≡ none)
                            ⊎ ((e : E) × ((grow (k * 24) ≡ some e) × Stuck grow c))))))))
capacity-cases grow c e room =
    let full : c.nmops ≤ length c.mops = ground (arith, e) in
    elim (next_nmops-Next c.nmops) [
      | inl (n, large) ↦ inl (n, (full, inl large))
      | inr (k, (n, next)) ↦ inr (
        k,
        (
          n,
          (
            omega (arith, next, room),
            elim (size_mul-cases k) [
              | inl (z, large) ↦ inl (z, (full, inl (omega (arith, next, large))))
              | inr z ↦ inr (
                z,
                elim (Option-cases (grow (k * 24))) [
                  | inl g ↦ inl g
                  | inr (r, g) ↦ inr (r, (g, (full, inr (k, (next, (r, g))))))
                ],
              )
            ],
          ),
        ),
      )
    ]

pub ensure_capacity-Ends :
    (Left : Mcore → Type 0) (h : Heap) (c : Mcore)
    → length c.mops ≤ c.nmops
    → (Stuck h.grow c → Left c)
    → Ends (λ _ c'. Regrown c c') Left (ensure_capacity h c)
unfolding ensure_capacity
ensure_capacity-Ends Left h c room left = elim (Bool-cases (ltb (length c.mops) c.nmops)) [
  | inl e ↦ rw e (c.nmops, (refl, ltb→lt _ _ e))
  | inr e ↦ rw e (elim (capacity-cases h.grow c e room) [
    | inl (n, stuck) ↦ rw n (left stuck)
    | inr (k, (n, (l, inl (z, stuck)))) ↦ rw (n, z) (left stuck)
    | inr (k, (n, (l, inr (z, inl g)))) ↦ rw (n, z, g) (k, (refl, l))
    | inr (k, (n, (l, inr (z, inr (r, (g, stuck)))))) ↦ rw (n, z, g) (left stuck)
  ])
]

-- What `gk_mcoreAddReserved` leaves.
abbrev pub recorded : Mcore → Mop → Mcore
recorded c m = count m.kind m.nbytes (record c { mops = m ∷ c.mops })

pub add_reserved-room :
    (c : Mcore) (m : Mop) → length c.mops < c.nmops → add_reserved c m ≡ ok tt (recorded c m)
unfolding add_reserved
add_reserved-room c m h = rw (lt→ltb _ _ h) refl

pub regrown-IsMcore :
    (c : Mcore) (k : ℕ) → IsMcore c → length c.mops < k → IsMcore (record c { nmops = k })
regrown-IsMcore c k w h = record {
  small = w.small;
  position = w.position;
  core_current = w.core_current;
  heap_current = w.heap_current;
  inside = w.inside;
  counted = w.counted;
  room = omega arith;
  seated = w.seated;
  framed = w.framed;
  known = w.known;
}

abbrev pub mark_mop : Mop
mark_mop = record { kind = mopt_mark; nbytes = 0; ptr = null }

abbrev pub heap_mop : ℕ → ℕ → Mop
heap_mop n a = record { kind = mopt_heap; nbytes = n; ptr = on_heap a }

abbrev pub core_mop : ℕ → ℕ → Mop
core_mop n o = record { kind = mopt_core; nbytes = n; ptr = in_core o }

pub mark-IsMcore : (c : Mcore) → IsMcore c → length c.mops < c.nmops → IsMcore (recorded c mark_mop)
mark-IsMcore c w h = record {
  small = w.small;
  position = omega (arith, w.position);
  core_current = omega (arith, w.core_current);
  heap_current = omega (arith, w.heap_current);
  inside = w.inside;
  counted = w.counted;
  room = omega arith;
  seated = ((λ e. ground arith), w.seated);
  framed = ((λ _. rw (sym w.position) w.seated), w.framed);
  known = ((λ e. ground arith), w.known);
}

pub heap-IsMcore :
    (c : Mcore) (n a : ℕ)
    → IsMcore c
    → length c.mops < c.nmops
    → c.cur_hallocs + n < 2 ^ 64
    → IsMcore (recorded c (heap_mop n a))
heap-IsMcore c n a w h b = record {
  small = w.small;
  position = omega (arith, w.position);
  core_current = omega (arith, w.core_current);
  heap_current = omega (arith, w.heap_current);
  inside = w.inside;
  counted = omega arith;
  room = omega arith;
  seated = ((λ e. ground arith), w.seated);
  framed = ((λ e. ground arith), w.framed);
  known = ((λ e. ground arith), w.known);
}

pub core-IsMcore :
    (c : Mcore) (n : ℕ)
    → IsMcore c
    → length c.mops < c.nmops
    → c.corecpos + n ≤ c.coresize
    → c.corecpos % 8 ≡ 0
    → n % 8 ≡ 0
    → IsMcore (recorded (record c { corecpos = c.corecpos + n }) (core_mop n c.corecpos))
core-IsMcore c n w h b p q = record {
  small = w.small;
  position = omega (arith, w.position);
  core_current = omega (arith, w.core_current, w.position, w.small);
  heap_current = omega (arith, w.heap_current);
  inside = b;
  counted = w.counted;
  room = omega arith;
  seated = (
    (λ e. (c.corecpos, (refl, (omega arith, (p, q))))),
    AllSit-mono c.corecpos (c.corecpos + n) c.mops (omega arith) w.seated,
  );
  framed = ((λ e. ground arith), w.framed);
  known = ((λ e. ground arith), w.known);
}
