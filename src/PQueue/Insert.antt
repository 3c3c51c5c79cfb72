-- ===== src/PQueue/Insert.antt =====
-- `Insert` and `Update`.
use gklib.Base.{
  ℕ, ◌+◌, ◌<◌, ◌≡◌, refl, ap, ◌∙◌, Bool, true, false, not, ◌&&◌, Option, none, some, arith,
  get_elem?, Bool-cases, inl, inr, ◌⊎◌,
}
use gklib.Base.Arrays.{◌>>=◌, get_elem?-get_or}
use gklib.PQueue.{KeyOrder, Arrays, PQueue, place, filter_up, insert, update}
use gklib.PQueue.State.{entry, key_at, place_of, key_of, Holed, Gapped, FitsDown, Settled, put}
use gklib.PQueue.Up.{filter_up-Stopped, read-entry}
use gklib.PQueue.Refit.{Means, refit, refit-Settled, close, find-place, open-own}

differing : (a b : Bool) → (not a && not b) ≡ false → (a ≡ true) ⊎ (b ≡ true)
differing true b e = inl refl
differing false true e = inr refl
differing false false e = absurd (ground arith)

module _ {K : Type 0} ⦃o : KeyOrder K⦄ where
  -- A new place at the end is a hole for a node that the queue does not hold.
  open-new :
      {m n : ℕ} {f : ℕ → Option K} {s : Arrays K} (node : ℕ)
      → Settled m n f s
      → node < m
      → n < m
      → f node ≡ none
      → Holed m (n + 1) n node f s
  unfolding key_of
  open-new {s = s} node st hn room absent =
      let out : place_of s node ≡ none = ground (arith, st.reads node) in
      record {
        heap_size = st.heap_size;
        locator_size = st.locator_size;
        within = omega arith;
        bounded = omega arith;
        node_bounded = hn;
        held = λ p hp np. ground (arith, st.held p);
        located = λ v p nv e. ground (arith, st.located v p);
        reads = λ v nv. st.reads v;
      }

  open-new-Gapped :
      {m n : ℕ} {f : ℕ → Option K} {s : Arrays K} → Settled m n f s → Gapped (n + 1) n s
  open-new-Gapped st = record {
    edges = λ c p hc nc npc. ground (arith, st.ordered c);
    bridge = λ c p hc e pn. absurd (omega arith);
  }

  insert-eq :
      (q : PQueue K) (node : ℕ) (key : K) (t : Arrays K)
      → (filter_up (q.nnodes + 1) key q.nnodes q.arrays >>= (λ r. place r.1 r.0 key node)) ≡ some t
      → insert q node key ≡ some (record q { nnodes = q.nnodes + 1; arrays = t })
  unfolding insert
  insert-eq q node key t h = ground arith

  -- `Insert` of a node below the capacity that the queue does not hold, into a queue with room, adds
  -- exactly that node with its key: the queue stays well-formed and every other node keeps its key.
  pub insert-Means :
      {f : ℕ → Option K} {q : PQueue K} (node : ℕ) (key : K)
      → Means f q
      → node < q.maxnodes
      → q.nnodes < q.maxnodes
      → f node ≡ none
      → (r : PQueue K) × (insert q node key ≡ some r)
        × Means (put node key f) r
        × (r.nnodes ≡ q.nnodes + 1)
        × (r.maxnodes ≡ q.maxnodes)
  insert-Means {q = q} node key st hn room absent =
      let leaf : FitsDown (q.nnodes + 1) q.nnodes key q.arrays = λ c p hc e. absurd (omega arith) in
      let (i, s, run, stop) =
        filter_up-Stopped (q.nnodes + 1) key q.nnodes q.arrays (omega arith)
          (open-new node st hn room absent) (open-new-Gapped st) leaf in
      let (t, closed, settled) = close _ run stop in
      (
        record q { nnodes = q.nnodes + 1; arrays = t },
        insert-eq q node key t closed,
        settled,
        refl,
        refl,
      )

  update-tie :
      (q : PQueue K) (node i : ℕ) (key : K)
      → get_elem? q.arrays.locator node ≡ some (some i)
      → get_elem? q.arrays.heap i ≡ some (entry q.arrays i)
      → o.lt key (key_at q.arrays i) ≡ false
      → o.lt (key_at q.arrays i) key ≡ false
      → update q node key ≡ some q
  unfolding update
  update-tie q node i key at read a b = rw (at, read, a, b)

  update-refit :
      (q : PQueue K) (node i : ℕ) (key : K) (t : Arrays K)
      → get_elem? q.arrays.locator node ≡ some (some i)
      → get_elem? q.arrays.heap i ≡ some (entry q.arrays i)
      → (not (o.lt key (key_at q.arrays i)) && not (o.lt (key_at q.arrays i) key)) ≡ false
      → refit node key (key_at q.arrays i) q.nnodes i q.arrays ≡ some t
      → update q node key ≡ some (record q { arrays = t })
  unfolding update
  update-refit q node i key t at read differ run = rw (at, read, differ) (ground arith)

  -- `Update` of a node in the queue: where one of the new and the old key is before the other, it
  -- gives the node the new key and keeps the queue well-formed and every other node's key; where
  -- neither is, it leaves the queue as it is.
  pub update-Means :
      {f : ℕ → Option K} {q : PQueue K} (node : ℕ) (newkey oldkey : K)
      → Means f q
      → f node ≡ some oldkey
      → (r : PQueue K) × (update q node newkey ≡ some r)
        × (((r ≡ q) × (o.lt newkey oldkey ≡ false) × (o.lt oldkey newkey ≡ false))
            ⊎ (((o.lt newkey oldkey ≡ true) ⊎ (o.lt oldkey newkey ≡ true))
                × Means (put node newkey f) r
                × (r.nnodes ≡ q.nnodes)))
  update-Means {q = q} node newkey oldkey st e =
      let (i, there, low, mine, kept, hn) = find-place node oldkey st e in
      let at : get_elem? q.arrays.locator node ≡ some (some i) =
        get_elem?-get_or q.arrays.locator node none (omega (arith, st.locator_size))
        ∙ ap (λ (x : Option ℕ). some x) there in
      let read = read-entry q.arrays i (omega (arith, st.heap_size, st.bounded)) in
      elim (Bool-cases
        (not (o.lt newkey (key_at q.arrays i)) && not (o.lt (key_at q.arrays i) newkey))) [
          | inl tie ↦
              let a : o.lt newkey (key_at q.arrays i) ≡ false = ground arith in
              let b : o.lt (key_at q.arrays i) newkey ≡ false = ground arith in
              (q, update-tie q node i newkey at read a b, inl (refl, ground arith, ground arith))
          | inr differ ↦
              let (t, run, settled) = refit-Settled newkey (open-own st node i there) st.ordered in
              let apart = differing _ _ differ in
              (
                record q { arrays = t },
                update-refit q node i newkey t at read differ run,
                inr (ground (arith, apart), settled, refl),
              )
        ]
