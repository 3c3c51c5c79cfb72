-- ===== src/PQueue/State.antt =====
-- The arrays as functions, the invariant of the queue, and the arrays with a hole.
use gklib.Base.{
  ℕ, ◌≤◌, ◌<◌, ◌≡◌, ◌≢◌, ◌∙◌, false, Option, none, some, arith, ◌==◌, if◌then◌else◌, get_or, set,
  length, Option-cases, inl, inr, length-set,
}
use mathlib.Core.Option
use gklib.Base.Arrays.{write-eq-some, get_elem?-get_or, get_or-set}
use gklib.PQueue.{KeyOrder, Kv, Arrays, parent, move, place}

module _ {K : Type 0} ⦃o : KeyOrder K⦄ where
  abbrev pub entry : Arrays K → ℕ → Kv K
  entry s i = get_or s.heap i (record { key = o.kmax; val = 0 })

  abbrev pub key_at : Arrays K → ℕ → K
  key_at s i = (entry s i).key

  abbrev pub val_at : Arrays K → ℕ → ℕ
  val_at s i = (entry s i).val

  abbrev pub place_of : Arrays K → ℕ → Option ℕ
  place_of s v = get_or s.locator v none

  -- The arrays as a map from nodes to keys: what a queue means.
  unfoldable pub key_of : Arrays K → ℕ → Option K
  key_of s v = Option.map (key_at s) (place_of s v)

  -- The first `n` places hold nodes below `m`, and the locator gives each node its place and -1 to
  -- all others; but for the place `i` and the node `node`, which are free. Other nodes read `f`.
  pub record Holed (m n i node : ℕ) (f : ℕ → Option K) (s : Arrays K) : Type 0 where
    pub heap_size : length s.heap ≡ m
    pub locator_size : length s.locator ≡ m
    pub within : i < n
    pub bounded : n ≤ m
    pub node_bounded : node < m
    pub held :
        (p : ℕ)
        → p < n
        → p ≢ i
        → (val_at s p < m) × (place_of s (val_at s p) ≡ some p) × (val_at s p ≢ node)
    pub located :
        (v p : ℕ) → v ≢ node → place_of s v ≡ some p → (p < n) × (p ≢ i) × (val_at s p ≡ v)
    pub reads : (v : ℕ) → v ≢ node → key_of s v ≡ f v

  -- What `move` does to the arrays.
  pub record Moved (i j : ℕ) (s t : Arrays K) : Type 0 where
    pub heap_kept : length t.heap ≡ length s.heap
    pub locator_kept : length t.locator ≡ length s.locator
    pub entries : (p : ℕ) → entry t p ≡ (if i == p then entry s j else entry s p)
    pub places : (v : ℕ) → place_of t v ≡ (if val_at s j == v then some i else place_of s v)

  pub move-Moved :
      (s : Arrays K) (i j : ℕ)
      → i < length s.heap
      → j < length s.heap
      → val_at s j < length s.locator
      → (t : Arrays K) × (move s i j ≡ some t) × Moved i j s t
  unfolding move
  move-Moved s i j hi hj hv =
      let x = entry s j in
      (
        record { heap = set s.heap i x; locator = set s.locator x.val (some i) },
        rw (
          get_elem?-get_or s.heap j (record { key = o.kmax; val = 0 }) hj,
          write-eq-some s.heap i x hi,
          write-eq-some s.locator x.val (some i) hv,
        ),
        record {
          heap_kept = length-set s.heap i x;
          locator_kept = length-set s.locator x.val (some i);
          entries = λ p. get_or-set s.heap i p x _ hi;
          places = λ v. get_or-set s.locator x.val v (some i) none hv;
        },
      )

  -- The hole moves with the entry that fills it.
  module _ {m n i j node : ℕ} {f : ℕ → Option K} {s : Arrays K} (h : Holed m n i node f s)
      (hj : j < n) (ne : j ≢ i) where
    reads-Moved : (t : Arrays K) → Moved i j s t → (v : ℕ) → v ≢ node → key_of t v ≡ f v
    unfolding key_of
    reads-Moved t mv v nv =
        let at = h.held j hj ne in
        elim (Option-cases (place_of s v)) [
          | inl e ↦ ground (arith, mv.places v, h.reads v)
          | inr (p, e) ↦
              ground (arith, mv.places v, mv.entries p, mv.entries i, h.reads v, h.located v p)
        ]

    pub Holed-move : (t : Arrays K) → Moved i j s t → Holed m n j node f t
    Holed-move t mv =
        let at = h.held j hj ne in
        record {
          heap_size = mv.heap_kept ∙ h.heap_size;
          locator_size = mv.locator_kept ∙ h.locator_size;
          within = hj;
          bounded = h.bounded;
          node_bounded = h.node_bounded;
          held = λ p hp np. ground (arith, mv.entries p, mv.places (val_at t p), h.held p);
          located = λ v p nv e. ground (arith, mv.entries p, mv.places v, h.located v p);
          reads = λ v nv. reads-Moved t mv v nv;
        }

  -- The first `n` places hold nodes below `m` in heap order, the locator gives each node its place
  -- and -1 to all others, and the arrays mean the map `f`.
  pub record Settled (m n : ℕ) (f : ℕ → Option K) (s : Arrays K) : Type 0 where
    pub heap_size : length s.heap ≡ m
    pub locator_size : length s.locator ≡ m
    pub bounded : n ≤ m
    pub held : (p : ℕ) → p < n → (val_at s p < m) × (place_of s (val_at s p) ≡ some p)
    pub located : (v p : ℕ) → place_of s v ≡ some p → (p < n) × (val_at s p ≡ v)
    pub ordered : (c : ℕ) → 0 < c → c < n → o.lt (key_at s c) (key_at s (parent c)) ≡ false
    pub reads : (v : ℕ) → key_of s v ≡ f v

  -- Heap order but for the hole `i`: the edges that do not touch it, and those past it.
  pub record Gapped (n i : ℕ) (s : Arrays K) : Type 0 where
    pub edges :
        (c : ℕ)
        → 0 < c
        → c < n
        → c ≢ i
        → parent c ≢ i
        → o.lt (key_at s c) (key_at s (parent c)) ≡ false
    pub bridge :
        (c : ℕ)
        → 0 < c
        → c < n
        → parent c ≡ i
        → 0 < i
        → o.lt (key_at s c) (key_at s (parent i)) ≡ false

  -- The key fits under the parent of the hole, and over its children.
  abbrev pub FitsUp : ℕ → K → Arrays K → Type 0
  FitsUp i key s = 0 < i → o.lt key (key_at s (parent i)) ≡ false

  abbrev pub FitsDown : ℕ → ℕ → K → Arrays K → Type 0
  FitsDown n i key s = (c : ℕ) → 0 < c → c < n → parent c ≡ i → o.lt (key_at s c) key ≡ false

  abbrev pub put : ℕ → K → (ℕ → Option K) → ℕ → Option K
  put node key f v = if node == v then some key else f v

  -- Writing the pending entry into the hole settles the arrays.
  module _ {m n i node : ℕ} {f : ℕ → Option K} {s : Arrays K} (h : Holed m n i node f s)
      (key : K) where
    abbrev filled : Arrays K
    filled = record {
      heap = set s.heap i (record { key = key; val = node });
      locator = set s.locator node (some i);
    }

    hole_in : i < length s.heap
    hole_in = let a = h.within in let b = h.bounded in omega (arith, h.heap_size)

    node_in : node < length s.locator
    node_in = let a = h.node_bounded in omega (arith, h.locator_size)

    entries_filled :
        (p : ℕ) → entry filled p ≡ (if i == p then record { key = key; val = node } else entry s p)
    entries_filled p = get_or-set s.heap i p (record { key = key; val = node }) _ hole_in

    places_filled : (v : ℕ) → place_of filled v ≡ (if node == v then some i else place_of s v)
    places_filled v = get_or-set s.locator node v (some i) none node_in

    reads_filled : (v : ℕ) → key_of filled v ≡ put node key f v
    unfolding key_of
    reads_filled v = elim (Option-cases (place_of s v)) [
      | inl e ↦ ground (arith, places_filled v, entries_filled i, h.reads v)
      | inr (p, e) ↦
          ground
            (arith, places_filled v, entries_filled i, entries_filled p, h.reads v, h.located v p)
    ]

    pub place-Settled :
        Gapped n i s
        → FitsUp i key s
        → FitsDown n i key s
        → (t : Arrays K) × (place s i key node ≡ some t) × Settled m n (put node key f) t
    unfolding place
    place-Settled g up down = (
      filled,
      rw (
        write-eq-some s.heap i (record { key = key; val = node }) hole_in,
        write-eq-some s.locator node (some i) node_in,
      ),
      record {
        heap_size = length-set s.heap i (record { key = key; val = node }) ∙ h.heap_size;
        locator_size = length-set s.locator node (some i) ∙ h.locator_size;
        bounded = h.bounded;
        held = λ p hp.
            ground
              (arith, entries_filled p, places_filled (val_at filled p), h.held p, h.node_bounded);
        located =
            λ v p e. ground (arith, entries_filled p, places_filled v, h.located v p, h.within);
        ordered = λ c pos hc.
            ground (arith, entries_filled c, entries_filled (parent c), g.edges c, up, down c);
        reads = reads_filled;
      },
    )
