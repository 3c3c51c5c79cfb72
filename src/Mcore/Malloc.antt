-- ===== src/Mcore/Malloc.antt =====
-- `gk_mcoreMalloc`.
use gklib.Base.{
  ℕ, ◌+◌, ◌%◌, ◌^◌, ◌≤◌, ◌<◌, ◌≡◌, refl, ◌⊎◌, inl, inr, true, false, ltb, ltb→lt, ◌-◌, none, some,
  List, [], ◌∷◌, length, arith, Bool-cases,
}
use gklib.Base.Outcome.{Signal, sigmem, Errno, eoverflow, ok, raised}
use gklib.Base.Size.{size_add, size_max, ptrdiff_max}
use gklib.Mcore.{
  MopType, mopt_mark, mopt_core, mopt_heap, mopt_other, Pointer, in_core, on_heap, Mop, Mcore, Heap,
  plus, can_add, ensure_capacity, padding, source_of, serve, take_block, malloc_padded, malloc,
}
use gklib.Mcore.State.{
  core_of, core_bytes, AllSit, IsMcore, Ends, and_then-Ends, Regrown, ensure_capacity-Ends, Stuck,
  add_reserved-room, regrown-IsMcore, heap_mop, core_mop, heap-IsMcore, core-IsMcore,
}

aligned_with :
    (kind : MopType) (n rest : ℕ)
    → (kind ≡ mopt_core → n % 8 ≡ 0)
    → rest % 8 ≡ 0
    → (core_of kind n + rest) % 8 ≡ 0
aligned_with mopt_mark n rest h r = omega (arith, r)
aligned_with mopt_core n rest h r = omega (arith, r, h refl)
aligned_with mopt_heap n rest h r = omega (arith, r)
aligned_with mopt_other n rest h r = omega (arith, r)

core_bytes-aligned : (top : ℕ) (ms : List Mop) → AllSit top ms → core_bytes ms % 8 ≡ 0
core_bytes-aligned top [] s = refl
core_bytes-aligned top (m ∷ ms) (s, ss) =
    aligned_with m.kind m.nbytes (core_bytes ms) (λ e. (s e).1.1.1.1) (core_bytes-aligned top ms ss)

-- A request of `n` bytes that `p` answers: one record more, of the bytes asked for up to the next
-- multiple of 8, and of a block of the core from the old free position on, or of the block that
-- `gk_malloc` answers for these bytes.
pub record Served (h : Heap) (c : Mcore) (n : ℕ) (p : Pointer) (c' : Mcore) : Type 0 where
  pub whole : IsMcore c'
  pub top : Mop
  pub on_top : c'.mops ≡ top ∷ c.mops
  pub enough : n ≤ top.nbytes
  pub tight : top.nbytes < n + 8
  pub aligned : top.nbytes % 8 ≡ 0
  pub origin :
      ((top ≡ core_mop top.nbytes c.corecpos)
        × ((p ≡ in_core c.corecpos)
            × ((c.corecpos % 8 ≡ 0) × (c.corecpos + top.nbytes ≤ c.coresize))))
      ⊎ ((a : ℕ) × ((h.malloc top.nbytes ≡ inr a)
            × ((top ≡ heap_mop top.nbytes a) × (p ≡ on_heap a))))

-- At most the capacity of the records changes.
abbrev pub Refused : Mcore → Mcore → Type 0
Refused c c' = IsMcore c' × ((k : ℕ) × (c' ≡ record c { nmops = k }))

-- The accounts of the core and of the heap can count `n` bytes more.
abbrev pub Countable : Mcore → ℕ → Type 0
Countable c n =
    (n ≤ ptrdiff_max)
    × (((c.num_callocs < size_max)
          × ((c.size_callocs + n ≤ size_max) × (c.cur_callocs + n ≤ size_max)))
        × ((c.num_hallocs < size_max)
            × ((c.size_hallocs + n ≤ size_max) × (c.cur_hallocs + n ≤ size_max))))

-- Why a request of `n` bytes, `size` with its padding, is refused: `gk_malloc` refuses it, the accounts
-- cannot count it, or the array of records is full and cannot grow.
abbrev pub Reason : Heap → Mcore → ℕ → Type 0
Reason h c size =
    ((e : Signal × Errno) × (h.malloc size ≡ inl e)) ⊎ ((Countable c size → ⊥) ⊎ Stuck h.grow c)

abbrev pub RefusedFor : Heap → Mcore → ℕ → Mcore → Type 0
RefusedFor h c n c' =
    Refused c c'
    × ((size : ℕ) × ((n ≤ size) × ((size < n + 8) × ((size % 8 ≡ 0) × Reason h c size))))

plus-small : (a b : ℕ) → a + b < 2 ^ 64 → plus a b ≡ a + b
plus-small a b h = omega arith

serve-core-Ends :
    (h : Heap) (c : Mcore) (k n request : ℕ)
    → IsMcore c
    → length c.mops < k
    → request ≤ n
    → n % 8 ≡ 0
    → n < request + 8
    → c.corecpos + n ≤ c.coresize
    → Ends
        (Served h c request)
        (RefusedFor h c request)
        (serve h mopt_core n (record c { nmops = k }))
serve-core-Ends h c k n request w l r q t b =
    rw (plus-small c.corecpos n (omega (arith, w.small))) (
      rw
        (add_reserved-room (record c { nmops = k; corecpos = c.corecpos + n })
          (core_mop n c.corecpos) l)
        (let even : c.corecpos % 8 ≡ 0 =
            rw w.position (core_bytes-aligned c.corecpos c.mops w.seated) in
          record {
            whole = core-IsMcore (record c { nmops = k }) n (regrown-IsMcore c k w l) l b even q;
            top = core_mop n c.corecpos;
            on_top = refl;
            enough = r;
            tight = t;
            aligned = q;
            origin = inl (refl, (refl, (even, b)));
          }))

take_block-Ends :
    (h : Heap) (c : Mcore) (k n request : ℕ)
    → IsMcore c
    → length c.mops < k
    → request ≤ n
    → n % 8 ≡ 0
    → n < request + 8
    → c.cur_hallocs + n < 2 ^ 64
    → (answer : (Signal × Errno) ⊎ ℕ) → h.malloc n ≡ answer
    → Ends
        (Served h c request)
        (RefusedFor h c request)
        (take_block n (record c { nmops = k }) answer)
take_block-Ends h c k n request w l r q t b (inl e) asked =
    ((regrown-IsMcore c k w l, (k, refl)), (n, (r, (t, (q, inl (e, asked))))))
take_block-Ends h c k n request w l r q t b (inr a) asked =
    rw (add_reserved-room (record c { nmops = k }) (heap_mop n a) l) record {
      whole = heap-IsMcore (record c { nmops = k }) n a (regrown-IsMcore c k w l) l b;
      top = heap_mop n a;
      on_top = refl;
      enough = r;
      tight = t;
      aligned = q;
      origin = inr (a, (asked, (refl, refl)));
    }

source_of-core : (c : Mcore) (n : ℕ) → source_of c n ≡ mopt_core → c.corecpos + n ≤ c.coresize
unfolding source_of
source_of-core c n e = ground arith

source_of-cases : (c : Mcore) (n : ℕ) → (source_of c n ≡ mopt_core) ⊎ (source_of c n ≡ mopt_heap)
unfolding source_of
source_of-cases c n = ground arith

can_add-heap : (c : Mcore) (n : ℕ) → can_add c mopt_heap n ≡ true → c.cur_hallocs + n < 2 ^ 64
unfolding can_add
can_add-heap c n e = ground arith

can_add-Countable : (c : Mcore) (n : ℕ) → can_add c (source_of c n) n ≡ false → Countable c n → ⊥
unfolding can_add
can_add-Countable c n e (p, ((a, (b, d)), (x, (y, z)))) = elim (source_of-cases c n) [
  | inl s ↦ let e' = rw s at e in ground (arith, e')
  | inr s ↦ let e' = rw s at e in ground (arith, e')
]

padding-tight : (n : ℕ) → n + padding n < n + 8
unfolding padding
padding-tight n = ground arith

padding-aligned : (n : ℕ) → (n + padding n) % 8 ≡ 0
unfolding padding
padding-aligned n = ground arith

serve-Ends :
    (h : Heap) (c : Mcore) (n request : ℕ)
    → IsMcore c
    → request ≤ n
    → n % 8 ≡ 0
    → n < request + 8
    → can_add c (source_of c n) n ≡ true
    → (c' : Mcore) → Regrown c c'
    → Ends (Served h c request) (RefusedFor h c request) (serve h (source_of c n) n c')
serve-Ends h c n request w r q t a c' (k, (e, l)) = rw e (elim (source_of-cases c n) [
  | inl s ↦ rw s (serve-core-Ends h c k n request w l r q t (source_of-core c n s))
  | inr s ↦
      rw s
        (take_block-Ends h c k n request w l r q t (can_add-heap c n (rw s at a)) (h.malloc n) refl)
])

unchanged : (c c' : Mcore) → IsMcore c → c' ≡ c → Refused c c'
unchanged c c' w e = rw e (w, (c.nmops, refl))

ensure_capacity-roomy :
    (h : Heap) (c : Mcore) → ltb (length c.mops) c.nmops ≡ true → ensure_capacity h c ≡ ok tt c
unfolding ensure_capacity
ensure_capacity-roomy h c e = rw (e, ensure_capacity) refl

malloc_padded-Ends :
    (h : Heap) (c : Mcore) (n request : ℕ)
    → IsMcore c
    → request ≤ n
    → n % 8 ≡ 0
    → n < request + 8
    → Ends (Served h c request) (RefusedFor h c request) (malloc_padded h c n)
unfolding malloc_padded
malloc_padded-Ends h c n request w r q t = elim (Bool-cases (can_add c (source_of c n) n)) [
  | inl a ↦ rw a (elim (Bool-cases (ltb (length c.mops) c.nmops)) [
    | inl roomy ↦
        rw (ensure_capacity-roomy h c roomy)
          (serve-Ends h c n request w r q t a c (c.nmops, (refl, ltb→lt _ _ roomy)))
    | inr tight ↦
        and_then-Ends _ _ _ (ensure_capacity h c) _
          (ensure_capacity-Ends (RefusedFor h c request) h c w.room
            (λ stuck. (unchanged c c w refl, (n, (r, (t, (q, inr (inr stuck))))))))
          (λ _ c' g. serve-Ends h c n request w r q t a c' g)
  ])
  | inr a ↦ rw a (unchanged c c w refl, (n, (r, (t, (q, inr (inl (can_add-Countable c n a)))))))
]

size_add-cases :
    (n m : ℕ) → ((size_add n m ≡ none) × (size_max < n + m)) ⊎ (size_add n m ≡ some (n + m))
unfolding size_add
size_add-cases n m = elim (Bool-cases (ltb (size_max - m) n)) [
  | inl t ↦ ground arith
  | inr t ↦ ground arith
]

malloc-overflow :
    (h : Heap) (c : Mcore) (n : ℕ)
    → size_add n (padding n) ≡ none
    → malloc h c n ≡ raised sigmem eoverflow c
unfolding malloc
malloc-overflow h c n e = rw (e, malloc) refl

malloc-padded :
    (h : Heap) (c : Mcore) (n bytes : ℕ)
    → size_add n (padding n) ≡ some bytes
    → malloc h c n ≡ malloc_padded h c bytes
unfolding malloc
malloc-padded h c n bytes e = rw (e, malloc) refl

-- `gk_mcoreMalloc` on a well-formed mcore, whatever memory is granted, takes the request up to the next
-- multiple of 8. It gives one new block of that size and records it: a block of the core from the
-- aligned free position on, inside the core, or the block that `gk_malloc` answers for that size. Or it
-- reports an error and keeps every record and account, which happens only where `gk_malloc` refuses
-- that size, an account would pass its type or the size is over PTRDIFF_MAX, or the array of
-- records is full and cannot grow. The mcore stays well-formed.
pub malloc-Ends :
    (h : Heap) (c : Mcore) (n : ℕ)
    → IsMcore c
    → Ends (Served h c n) (RefusedFor h c n) (malloc h c n)
malloc-Ends h c n w =
    let size = n + padding n in
    let even = padding-aligned n in
    elim (size_add-cases n (padding n)) [
      | inl e ↦ rw (malloc-overflow h c n e.0) (
        unchanged c c w refl,
        (
          size,
          (
            omega arith,
            (padding-tight n, (even, inr (inl (λ k. absurd (omega (arith, e.1, k.0)))))),
          ),
        ),
      )
      | inr e ↦
          rw (malloc-padded h c n size e)
            (malloc_padded-Ends h c size n w (omega arith) even (padding-tight n))
    ]
