-- ===== src/PQueue/Delete.antt =====
-- `Delete`.
use gklib.Base.{
  ℕ, suc, ◌+◌, ◌-◌, ◌<◌, ◌^◌, ◌≡◌, ◌≢◌, refl, ap, ◌∙◌, Option, none, some, arith, ◌==◌, length,
  get_elem?, Bool-cases, inl, inr,
}
use mathlib.Core.Path.{subst}
use gklib.Base.Arrays.{get_elem?-get_or}
use gklib.PQueue.{KeyOrder, Kv, Arrays, PQueue, forget, pred_size, fill, delete}
use gklib.PQueue.State.{entry, key_at, val_at, place_of, Settled}
use gklib.PQueue.Up.{read-entry}
use gklib.PQueue.Refit.{
  Means, del, refit, refit-Settled, find-place, forgotten, forget-eq, entry-forgotten,
  sizes-forgotten,
}
use gklib.PQueue.Forget.{IsOrdered-forgotten, forgotten-last, forgotten-Holed, put-last}

module _ {K : Type 0} ⦃o : KeyOrder K⦄ where
  -- Equal maps are as good.
  pub Settled-map :
      {m n : ℕ} {f g : ℕ → Option K} {s : Arrays K}
      → ((v : ℕ) → f v ≡ g v)
      → Settled m n f s
      → Settled m n g s
  Settled-map h st = record {
    heap_size = st.heap_size;
    locator_size = st.locator_size;
    bounded = st.bounded;
    held = st.held;
    located = st.located;
    ordered = st.ordered;
    reads = λ v. st.reads v ∙ h v;
  }

  -- What the last place takes when the node at `i` goes.
  module _ {m n : ℕ} {f : ℕ → Option K} {s : Arrays K} (st : Settled m (suc n) f s) (node i : ℕ)
      (there : place_of s node ≡ some i) (ne : i ≢ n) where
    pub last-refit :
        (t : Arrays K) × (refit (val_at s n) (key_at s n) (key_at s i) n i (forgotten s node)
          ≡ some t)
        × Settled m n (del node f) t
    last-refit =
        let (t, run, settled) =
          refit-Settled (key_at s n) (forgotten-Holed st node i there ne)
            (IsOrdered-forgotten st node i there) in
        (t, run, Settled-map (put-last st node i there ne) settled)

  fill-eq :
      (n i : ℕ) (x : Kv K) (s t : Arrays K)
      → i < length s.heap
      → refit x.val x.key (key_at s i) n i s ≡ some t
      → fill n i x s ≡ some t
  unfolding fill
  fill-eq n i x s t hi run = rw (read-entry s i hi) (ground arith)

  module _ (q : PQueue K) (node i n : ℕ) (s : Arrays K)
      (at : get_elem? q.arrays.locator node ≡ some (some i)) (gone : forget q.arrays node ≡ some s)
      (size : pred_size q.nnodes ≡ n) where
    delete-only : n ≡ 0 → delete q node ≡ some (record q { nnodes = n; arrays = s })
    unfolding delete
    delete-only e = rw (at, gone, size) (ground arith)

    delete-last :
        (x : Kv K)
        → n ≢ 0
        → get_elem? s.heap n ≡ some x
        → x.val ≡ node
        → delete q node ≡ some (record q { nnodes = n; arrays = s })
    unfolding delete
    delete-last x ne read e = rw (at, gone, size, read) (ground arith)

    delete-fill :
        (x : Kv K) (t : Arrays K)
        → n ≢ 0
        → get_elem? s.heap n ≡ some x
        → x.val ≢ node
        → fill n i x s ≡ some t
        → delete q node ≡ some (record q { nnodes = n; arrays = t })
    unfolding delete
    delete-fill x t ne read e run = rw (at, gone, size, read) (ground arith)

  -- `Delete` of a node in the queue takes exactly that node out: the queue stays well-formed and
  -- every other node keeps its key.
  pub delete-Means :
      {f : ℕ → Option K} {q : PQueue K} (node : ℕ) (key : K)
      → Means f q
      → f node ≡ some key
      → q.maxnodes < 2 ^ 64
      → (r : PQueue K) × (delete q node ≡ some r)
        × Means (del node f) r
        × (r.nnodes + 1 ≡ q.nnodes)
        × (r.maxnodes ≡ q.maxnodes)
  delete-Means {f = f} {q = q} node key st e fits =
      let (i, there, low, mine, kept, hn) = find-place node key st e in
      let at : get_elem? q.arrays.locator node ≡ some (some i) =
        get_elem?-get_or q.arrays.locator node none (omega (arith, st.locator_size))
        ∙ ap (λ (x : Option ℕ). some x) there in
      let n = q.nnodes - 1 in
      let b = st.bounded in
      let one_less : q.nnodes ≡ suc n = omega arith in
      let st' : Settled q.maxnodes (suc n) f q.arrays =
        subst (λ k. Settled q.maxnodes k f q.arrays) one_less st in
      let gone = forget-eq q.arrays node (omega (arith, st.locator_size)) in
      let size : pred_size q.nnodes ≡ n = omega arith in
      let s = forgotten q.arrays node in
      let heap_size = (sizes-forgotten q.arrays node).0 ∙ st.heap_size in
      let read = read-entry s n (omega (arith, heap_size)) in
      elim (Bool-cases (i == n)) [
        | inl last ↦
            let settled = forgotten-last st' node i there (ground arith) in
            let back : delete q node ≡ some (record q { nnodes = n; arrays = s }) =
              elim (Bool-cases (n == 0)) [
                | inl z ↦ delete-only q node i n s at gone size (ground arith)
                | inr nz ↦
                    delete-last q node i n s at gone size (entry s n) (ground arith) read
                      (ground (arith, entry-forgotten q.arrays node n))
              ] in
            (record q { nnodes = n; arrays = s }, back, settled, omega arith, refl)
        | inr inner ↦
            let (t, run, settled) = last-refit st' node i there (ground arith) in
            (
              record q { nnodes = n; arrays = t },
              delete-fill q node i n s at gone size (entry s n) t (ground arith) read
                  (ground (arith, entry-forgotten q.arrays node n, st.located node i, st'.held n))
                  (fill-eq n i (entry s n) s t (omega (arith, heap_size)) run),
              settled,
              omega arith,
              refl,
            )
      ]
