-- ===== src/PQueue/Top.antt =====
-- `GetTop`, `SeeTopVal`, `SeeTopKey` and `SeeKey`.
use gklib.Base.{
  ℕ, zero, suc, ◌+◌, ◌-◌, ◌<◌, ◌≡◌, ◌≢◌, refl, false, Option, none, some, arith, ◌==◌,
  if◌then◌else◌, length, get_elem?, Bool-cases, inl, inr, ◌⊎◌,
}
use mathlib.Core.Path.{subst}
use gklib.Base.Arrays.{◌>>=◌, get_elem?-get_or}
use gklib.PQueue.{
  KeyOrder, Arrays, PQueue, parent, forget, refill, get_top, place, filter_down, see_top_val,
  see_top_key, see_key,
}
use gklib.PQueue.State.{entry, key_at, val_at, place_of, key_of, FitsUp, Settled}
use gklib.PQueue.Up.{read-entry}
use gklib.PQueue.Down.{filter_down-Stopped, lt_irrefl}
use gklib.PQueue.Refit.{
  Means, del, IsOrdered, Gapped-ordered, close, find-place, forgotten, forget-eq,
}
use gklib.PQueue.Forget.{IsOrdered-forgotten, forgotten-last, forgotten-Holed, put-last}
use gklib.PQueue.Delete.{Settled-map}

module _ {K : Type 0} ⦃o : KeyOrder K⦄ where
  -- No key in an ordered heap is before that of its root.
  root_least :
      (fuel n i : ℕ) (s : Arrays K)
      → IsOrdered n s
      → i < fuel
      → i < n
      → o.lt (key_at s i) (key_at s 0) ≡ false
  root_least zero n i s h f p = absurd (omega arith)
  root_least (suc fuel) n zero s h f p = lt_irrefl (key_at s 0)
  root_least (suc fuel) n (suc i) s h f p =
      o.le_trans (key_at s 0) (key_at s (parent (suc i))) (key_at s (suc i))
        (root_least fuel n (parent (suc i)) s h (omega arith) (omega arith))
        (h (suc i) (omega arith) p)

  -- `top` is in the queue with the key `k`, and no node has a key before it.
  abbrev pub IsTop : (ℕ → Option K) → ℕ → K → Type 0
  IsTop f top k = (f top ≡ some k) × ((v : ℕ) (j : K) → f v ≡ some j → o.lt j k ≡ false)

  root-IsTop :
      {m n : ℕ} {f : ℕ → Option K} {s : Arrays K}
      → Settled m n f s
      → 0 < n
      → (place_of s (val_at s 0) ≡ some 0) × IsTop f (val_at s 0) (key_at s 0)
  unfolding key_of
  root-IsTop {n = n} {f = f} {s = s} st pos = (
    (st.held 0 pos).1,
    (
      ground (arith, st.held 0, st.reads (val_at s 0)),
      λ v j e.
          let (i, there, low, mine, kept, hn) = find-place v j st e in
          subst (λ (x : K). o.lt x (key_at s 0) ≡ false) kept
            (root_least (suc i) n i s st.ordered (omega arith) low),
    ),
  )

  refill-eq :
      (n : ℕ) (s t : Arrays K)
      → n < length s.heap
      → (filter_down (n + 1) (key_at s n) n 0 s >>= (λ r. place r.1 r.0 (key_at s n) (val_at s n)))
        ≡ some t
      → refill n s ≡ some t
  unfolding refill
  refill-eq n s t h run = rw (read-entry s n h) (ground arith)

  get_top-eq :
      (q : PQueue K) (n : ℕ) (s t : Arrays K)
      → q.nnodes ≡ suc n
      → get_elem? q.arrays.heap 0 ≡ some (entry q.arrays 0)
      → forget q.arrays (val_at q.arrays 0) ≡ some s
      → (if n == 0 then some s else refill n s) ≡ some t
      → get_top q ≡ some (some (val_at q.arrays 0), record q { nnodes = n; arrays = t })
  unfolding get_top
  get_top-eq q n s t size read gone run =
      let less : q.nnodes - 1 ≡ n = omega arith in
      let some_left : (q.nnodes == 0) ≡ false = ground arith in
      rw (some_left, read, gone, less) (ground arith)

  -- `GetTop` of a queue that is not empty returns a node with no other key before its key, and takes
  -- exactly that node out: the queue stays well-formed and every other node keeps its key.
  pub get_top-Means :
      {f : ℕ → Option K} {q : PQueue K}
      → Means f q
      → 0 < q.nnodes
      → (top : ℕ) × (k : K) × (r : PQueue K) × (get_top q ≡ some (some top, r))
        × IsTop f top k
        × Means (del top f) r
        × (r.nnodes + 1 ≡ q.nnodes)
        × (r.maxnodes ≡ q.maxnodes)
  get_top-Means {f = f} {q = q} st pos =
      let top = val_at q.arrays 0 in
      let (there, best) = root-IsTop st pos in
      let n = q.nnodes - 1 in
      let b = st.bounded in
      let size : q.nnodes ≡ suc n = omega arith in
      let st' : Settled q.maxnodes (suc n) f q.arrays =
        subst (λ k. Settled q.maxnodes k f q.arrays) size st in
      let s = forgotten q.arrays top in
      let gone = forget-eq q.arrays top (omega (arith, (st.held 0 pos).0, st.locator_size)) in
      let read = read-entry q.arrays 0 (omega (arith, st.heap_size)) in
      elim (Bool-cases (n == 0)) [
        | inl z ↦
            let settled = forgotten-last st' top 0 there (ground arith) in
            (
              top,
              key_at q.arrays 0,
              record q { nnodes = n; arrays = s },
              get_top-eq q n s s size read gone (rw z),
              best,
              settled,
              omega arith,
              refl,
            )
        | inr more ↦
            let ne : 0 ≢ n = ground arith in
            let hole = forgotten-Holed st' top 0 there ne in
            let ord = IsOrdered-forgotten st' top 0 there in
            let up : FitsUp 0 (key_at s n) s = λ p. absurd (omega arith) in
            let (i, u, run, stop) =
              filter_down-Stopped (n + 1) (key_at s n) 0 s (omega arith) hole
                (Gapped-ordered n 0 s hole.within ord) up in
            let (t, closed, settled) = close _ run stop in
            (
              top,
              key_at q.arrays 0,
              record q { nnodes = n; arrays = t },
              get_top-eq q n s t size read gone
                  (rw more (refill-eq n s t (omega (arith, st.heap_size)) closed)),
              best,
              Settled-map (put-last st' top 0 there ne) settled,
              omega arith,
              refl,
            )
      ]

  -- What the calls that only look answer: -1 and `KMAX` for an empty queue, and otherwise a top node
  -- and its key; `SeeKey` gives the key of every node in the queue.
  pub see-Means :
      {f : ℕ → Option K} {q : PQueue K}
      → Means f q
      → ((q.nnodes ≡ 0) × (see_top_val q ≡ some none) × (see_top_key q ≡ some o.kmax))
        ⊎ ((top : ℕ) × (k : K) × (see_top_val q ≡ some (some top))
            × (see_top_key q ≡ some k)
            × IsTop f top k)
  unfolding see_top_val see_top_key
  see-Means {f = f} {q = q} st = elim (Bool-cases (q.nnodes == 0)) [
    | inl z ↦ inl (ground arith, rw z, rw z)
    | inr more ↦
        let b = st.bounded in
        let pos : 0 < q.nnodes = ground arith in
        let (there, best) = root-IsTop st pos in
        let read = read-entry q.arrays 0 (omega (arith, st.heap_size)) in
        inr (val_at q.arrays 0, key_at q.arrays 0, rw (more, read), rw (more, read), best)
  ]

  see_key-Means :
      {f : ℕ → Option K} {q : PQueue K} (node : ℕ) (k : K)
      → Means f q
      → f node ≡ some k
      → see_key q node ≡ some k
  unfolding see_key
  see_key-Means {q = q} node k st e =
      let (i, there, low, mine, kept, hn) = find-place node k st e in
      let b = st.bounded in
      rw (
        get_elem?-get_or q.arrays.locator node none (omega (arith, st.locator_size)),
        there,
        read-entry q.arrays i (omega (arith, st.heap_size)),
        kept,
      )
