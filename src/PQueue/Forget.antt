-- ===== src/PQueue/Forget.antt =====
-- The arrays after a node was taken out of the locator.
use gklib.Base.{
  ℕ, suc, ◌<◌, ◌≡◌, ◌≢◌, ◌∙◌, Option, none, some, arith, ◌==◌, if◌then◌else◌, length, Option-cases,
  inl, inr,
}
use gklib.PQueue.{KeyOrder, Arrays, parent}
use gklib.PQueue.State.{entry, key_at, val_at, place_of, key_of, Holed, Settled, put}
use gklib.PQueue.Refit.{
  del, IsOrdered, forgotten, entry-forgotten, place_of-forgotten, sizes-forgotten,
}

module _ {K : Type 0} ⦃o : KeyOrder K⦄ {m n : ℕ} {f : ℕ → Option K} {s : Arrays K}
    (st : Settled m (suc n) f s) (node i : ℕ) (there : place_of s node ≡ some i) where
  abbrev after : Arrays K
  after = forgotten s node

  node_in : node < length s.locator
  node_in = ground (arith, st.located node i, st.held i, st.locator_size)

  places : (v : ℕ) → place_of after v ≡ (if node == v then none else place_of s v)
  places v = place_of-forgotten s node v node_in

  entries : (p : ℕ) → entry after p ≡ entry s p
  entries p = entry-forgotten s node p

  reads_del : (v : ℕ) → key_of after v ≡ del node f v
  unfolding key_of
  reads_del v = elim (Option-cases (place_of s v)) [
    | inl e ↦ ground (arith, places v, st.reads v)
    | inr (p, e) ↦ ground (arith, places v, entries p, st.reads v)
  ]

  pub IsOrdered-forgotten : IsOrdered n after
  IsOrdered-forgotten c p hc = ground (arith, entries c, entries (parent c), st.ordered c)

  -- The last entry needs no refilling.
  pub forgotten-last : i ≡ n → Settled m n (del node f) after
  forgotten-last e = record {
    heap_size = (sizes-forgotten s node).0 ∙ st.heap_size;
    locator_size = (sizes-forgotten s node).1 ∙ st.locator_size;
    bounded = let b = st.bounded in omega arith;
    held = λ p hp. ground (arith, entries p, places (val_at s p), st.held p, st.located node i);
    located = λ v p ev. ground (arith, entries p, places v, st.located v p, st.located node i);
    ordered = IsOrdered-forgotten;
    reads = reads_del;
  }

  -- Any other entry is a hole for the last node, which the heap of one entry less has lost.
  pub forgotten-Holed : i ≢ n → Holed m n i (val_at s n) (del node f) after
  forgotten-Holed ne = record {
    heap_size = (sizes-forgotten s node).0 ∙ st.heap_size;
    locator_size = (sizes-forgotten s node).1 ∙ st.locator_size;
    within = ground (arith, st.located node i);
    bounded = let b = st.bounded in omega arith;
    node_bounded = ground (arith, st.held n);
    held = λ p hp np.
        ground (arith, entries p, places (val_at s p), st.held p, st.held n, st.located node i);
    located = λ v p nv ev. ground (arith, entries p, places v, st.located v p, st.located node i);
    reads = λ v nv. reads_del v;
  }

  -- Putting the last node back gives the map without `node`.
  pub put-last : i ≢ n → (v : ℕ) → put (val_at s n) (key_at s n) (del node f) v ≡ del node f v
  unfolding key_of
  put-last ne v = ground (arith, st.reads (val_at s n), st.held n, st.located node i)
