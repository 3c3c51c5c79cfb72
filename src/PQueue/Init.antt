-- ===== src/PQueue/Init.antt =====
-- `Init`.
use gklib.Base.{
  ℕ, ◌+◌, ◌≤◌, ◌<◌, ◌≡◌, ◌⊎◌, Option, none, some, arith, length, inl, inr, get_or, List,
}
use gklib.Base.Outcome.{Signal, sigmem, Errno, eoverflow, Outcome, ok, raised, or_enomem}
use gklib.Base.Size.{ptrdiff_max}
use gklib.PQueue.{KeyOrder, Kv, PQueue, set_all, trap_signal, no_queue}
use gklib.PQueue.State.{key_of}
use gklib.PQueue.Refit.{Means}

-- An array whose elements from `i` on, `n` of them, are set.
record Set {A : Type 0} (n i : ℕ) (val : A) (x : List A) : Type 0 where
  after : List A
  run : set_all n i val x ≡ some after
  size : length after ≡ length x
  inside : (k : ℕ) → i ≤ k → k < i + n → get_or after k val ≡ val
  before : (k : ℕ) → k < i → get_or after k val ≡ get_or x k val

-- An answer of the allocator has room for `n` elements.
abbrev pub HasRoom : {A : Type 0} → ℕ → Errno ⊎ List A → Type 0
HasRoom n (inl e) = Unit {0}
HasRoom n (inr x) = length x ≡ n

module _ {K : Type 0} ⦃o : KeyOrder K⦄ where
  pub empty-Means :
      (maxnodes : ℕ) (block : List (Kv K)) (filled : List (Option ℕ))
      → length block ≡ maxnodes
      → length filled ≡ maxnodes
      → ((v : ℕ) → get_or filled v none ≡ none)
      → Means
          (λ _. none)
          (record {
            nnodes = 0;
            maxnodes = maxnodes;
            arrays = record { heap = block; locator = filled };
          })
  unfolding key_of
  empty-Means maxnodes block filled e e' clear = record {
    heap_size = e;
    locator_size = e';
    bounded = omega arith;
    held = λ p h. absurd (omega arith);
    located = λ v p h. absurd (ground (arith, clear v));
    ordered = λ c p h. absurd (omega arith);
    reads = λ v. rw (clear v);
  }

  -- An empty queue of a capacity.
  pub record IsEmpty (maxnodes : ℕ) (q : PQueue K) : Type 0 where
    pub means : Means (λ _. none) q
    pub nnodes : q.nnodes ≡ 0
    pub capacity : q.maxnodes ≡ maxnodes

  -- The signal and `errno` of a failed `Init`, by the first of its steps that fails.
  abbrev pub InitFails :
      ℕ → Option Errno → Errno ⊎ List (Kv K) → Errno ⊎ List (Option ℕ) → Signal → Errno → Type 0
  InitFails maxnodes trap heap locator signal errno =
      ((ptrdiff_max < maxnodes) × ((signal ≡ sigmem) × (errno ≡ eoverflow)))
      ⊎ (((trap ≡ some errno) × (signal ≡ trap_signal errno))
          ⊎ ((e : Errno) × (((heap ≡ inl e) ⊎ (locator ≡ inl e))
                × ((signal ≡ sigmem) × (errno ≡ or_enomem e)))))

  -- The end of `Init`.
  abbrev pub InitEnds :
      ℕ
      → Option Errno
      → Errno ⊎ List (Kv K)
      → Errno ⊎ List (Option ℕ)
      → Outcome (PQueue K) (Unit {0})
      → Type 0
  InitEnds maxnodes trap heap locator o =
      ((q : PQueue K) × ((o ≡ ok tt q) × IsEmpty maxnodes q))
      ⊎ ((signal : Signal) × ((errno : Errno) × ((o ≡ raised signal errno no_queue)
              × InitFails maxnodes trap heap locator signal errno)))
