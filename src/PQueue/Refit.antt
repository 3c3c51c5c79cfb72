-- ===== src/PQueue/Refit.antt =====
-- How the calls open a hole, and close it by one of the two loops.
use gklib.Base.{
  ℕ, ◌+◌, ◌<◌, ◌≡◌, refl, ◌∙◌, true, false, Option, none, some, arith, ◌==◌, if◌then◌else◌, length,
  set, Bool-cases, Option-cases, inl, inr, length-set,
}
use gklib.Base.Arrays.{◌>>=◌, write-eq-some, get_or-set}
use gklib.PQueue.{KeyOrder, Arrays, PQueue, parent, place, forget, filter_up, filter_down, filter}
use gklib.PQueue.State.{
  entry, key_at, val_at, place_of, key_of, Holed, Gapped, FitsUp, FitsDown, Settled, put,
  place-Settled,
}
use gklib.PQueue.Up.{Stopped, filter_up-Stopped}
use gklib.PQueue.Down.{filter_down-Stopped}

module _ {K : Type 0} ⦃o : KeyOrder K⦄ where
  -- The queue is well-formed and means the map `f` from nodes to keys.
  abbrev pub Means : (ℕ → Option K) → PQueue K → Type 0
  Means f q = Settled q.maxnodes q.nnodes f q.arrays

  abbrev pub del : ℕ → (ℕ → Option K) → ℕ → Option K
  del node f v = if node == v then none else f v

  -- `filter` and then `place`.
  abbrev pub refit : ℕ → K → K → ℕ → ℕ → Arrays K → Option (Arrays K)
  refit node key oldkey n i s = filter key oldkey n i s >>= (λ r. place r.1 r.0 key node)

  abbrev pub IsOrdered : ℕ → Arrays K → Type 0
  IsOrdered n s = (c : ℕ) → 0 < c → c < n → o.lt (key_at s c) (key_at s (parent c)) ≡ false

  pub Gapped-ordered : (n i : ℕ) (s : Arrays K) → i < n → IsOrdered n s → Gapped n i s
  Gapped-ordered n i s hi h = record {
    edges = λ c p hc nc npc. h c p hc;
    bridge = λ c p hc e pi.
        ground (arith, h c, h i, o.le_trans (key_at s (parent i)) (key_at s i) (key_at s c));
  }

  filter-up :
      (key oldkey : K) (n i : ℕ) (s : Arrays K)
      → o.lt key oldkey ≡ true
      → filter key oldkey n i s ≡ filter_up (i + 1) key i s
  unfolding filter
  filter-up key oldkey n i s h = rw h

  filter-down :
      (key oldkey : K) (n i : ℕ) (s : Arrays K)
      → o.lt key oldkey ≡ false
      → filter key oldkey n i s ≡ filter_down (n + 1) key n i s
  unfolding filter
  filter-down key oldkey n i s h = rw h

  pub close :
      {m n node i : ℕ} {f : ℕ → Option K} {key : K} {s : Arrays K} (r : Option (ℕ × Arrays K))
      → r ≡ some (i, s)
      → Stopped m n node f key i s
      → (t : Arrays K) × ((r >>= (λ r. place r.1 r.0 key node)) ≡ some t)
        × Settled m n (put node key f) t
  close {key = key} r e stop =
      let (t, run, settled) = place-Settled stop.holed key stop.gapped stop.up stop.down in
      (t, rw e run, settled)

  -- A hole in an ordered heap takes any key, by the loop that the code chooses.
  pub refit-Settled :
      {m n i node : ℕ} {f : ℕ → Option K} {s : Arrays K} (key : K)
      → Holed m n i node f s
      → IsOrdered n s
      → (t : Arrays K) × (refit node key (key_at s i) n i s ≡ some t)
        × Settled m n (put node key f) t
  refit-Settled {m} {n} {i} {node} {f} {s} key h ord =
      let g = Gapped-ordered n i s h.within ord in
      elim (Bool-cases (o.lt key (key_at s i))) [
        | inl low ↦
            let down : FitsDown n i key s = λ c p hc e. ground (
              arith,
              ord c,
              o.lt_asym key (key_at s i),
              o.le_trans key (key_at s i) (key_at s c),
            ) in
            let (i', t, run, stop) = filter_up-Stopped (i + 1) key i s (omega arith) h g down in
            close _ (filter-up key (key_at s i) n i s low ∙ run) stop
        | inr high ↦
            let up : FitsUp i key s = λ p.
              ground (arith, h.within, ord i, o.le_trans (key_at s (parent i)) (key_at s i) key) in
            let (i', t, run, stop) = filter_down-Stopped (n + 1) key i s (omega arith) h g up in
            close _ (filter-down key (key_at s i) n i s high ∙ run) stop
      ]

  -- `locator[node] = -1`.
  abbrev pub forgotten : Arrays K → ℕ → Arrays K
  forgotten s node = record s { locator = set s.locator node none }

  pub forget-eq :
      (s : Arrays K) (node : ℕ) → node < length s.locator → forget s node ≡ some (forgotten s node)
  unfolding forget
  forget-eq s node h = rw (write-eq-some s.locator node none h)

  pub entry-forgotten : (s : Arrays K) (node p : ℕ) → entry (forgotten s node) p ≡ entry s p
  entry-forgotten s node p = refl

  pub place_of-forgotten :
      (s : Arrays K) (node v : ℕ)
      → node < length s.locator
      → place_of (forgotten s node) v ≡ (if node == v then none else place_of s v)
  place_of-forgotten s node v h = get_or-set s.locator node v none none h

  pub sizes-forgotten :
      (s : Arrays K) (node : ℕ)
      → (length (forgotten s node).heap ≡ length s.heap)
        × (length (forgotten s node).locator ≡ length s.locator)
  sizes-forgotten s node = (refl, length-set s.locator node none)

  -- The place of a node that the queue holds, and its key.
  pub find-place :
      {m n : ℕ} {f : ℕ → Option K} {s : Arrays K} (node : ℕ) (key : K)
      → Settled m n f s
      → f node ≡ some key
      → (i : ℕ) × (place_of s node ≡ some i)
        × (i < n)
        × (val_at s i ≡ node)
        × (key_at s i ≡ key)
        × (node < m)
  unfolding key_of
  find-place {s = s} node key st e = elim (Option-cases (place_of s node)) [
    | inl none_there ↦ absurd (ground (arith, st.reads node))
    | inr (i, there) ↦ (
      i,
      there,
      ground (arith, st.located node i),
      ground (arith, st.located node i),
      ground (arith, st.reads node),
      ground (arith, st.located node i, st.held i),
    )
  ]

  module _ {m n : ℕ} {f : ℕ → Option K} {s : Arrays K} (st : Settled m n f s) (node i : ℕ)
      (there : place_of s node ≡ some i) where
    -- The entry of a node that is in the queue is a hole for that node.
    pub open-own : Holed m n i node f s
    open-own = record {
      heap_size = st.heap_size;
      locator_size = st.locator_size;
      within = ground (arith, st.located node i);
      bounded = st.bounded;
      node_bounded = ground (arith, st.located node i, st.held i);
      held = λ p hp np. ground (arith, st.held p, st.located node i);
      located = λ v p nv e. ground (arith, st.located v p, st.located node i);
      reads = λ v nv. st.reads v;
    }
