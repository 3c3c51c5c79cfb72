-- ===== src/PQueue/Reset.antt =====
-- `Reset`.
use gklib.Base.{
  ℕ, zero, suc, ◌<◌, ◌≡◌, refl, ◌∙◌, Option, none, some, arith, length, Option-cases, inl, inr,
}
use gklib.PQueue.{KeyOrder, Arrays, PQueue, forget, reset_loop, reset}
use gklib.PQueue.State.{val_at, place_of, key_of, Settled}
use gklib.PQueue.Up.{read-entry}
use gklib.PQueue.Refit.{Means, forgotten, forget-eq}
use gklib.PQueue.Forget.{forgotten-last}
use gklib.PQueue.Delete.{Settled-map}

module _ {K : Type 0} ⦃o : KeyOrder K⦄ where
  nothing : {m : ℕ} {f : ℕ → Option K} {s : Arrays K} (v : ℕ) → Settled m 0 f s → f v ≡ none
  unfolding key_of
  nothing {s = s} v st = elim (Option-cases (place_of s v)) [
    | inl e ↦ ground (arith, st.reads v)
    | inr (p, e) ↦ absurd (omega (arith, (st.located v p e).0))
  ]

  reset_loop-next :
      (i : ℕ) (s t : Arrays K)
      → i < length s.heap
      → forget s (val_at s i) ≡ some t
      → reset_loop (suc i) s ≡ reset_loop i t
  unfolding reset_loop
  reset_loop-next i s t h gone = rw (read-entry s i h, gone)

  reset_loop-Settled :
      (n : ℕ) {m : ℕ} {f : ℕ → Option K} (s : Arrays K)
      → Settled m n f s
      → (t : Arrays K) × (reset_loop n s ≡ some t) × Settled m 0 (λ _. none) t
  unfolding reset_loop
  reset_loop-Settled zero s st = (s, refl, Settled-map (λ v. nothing v st) st)
  reset_loop-Settled (suc n) s st =
      let node = val_at s n in
      let b = st.bounded in
      let (low, there) = st.held n (omega arith) in
      let gone = forget-eq s node (omega (arith, st.locator_size)) in
      let (t, run, empty) =
        reset_loop-Settled n (forgotten s node) (forgotten-last st node n there refl) in
      (t, reset_loop-next n s (forgotten s node) (omega (arith, st.heap_size)) gone ∙ run, empty)

  reset-eq :
      (q : PQueue K) (t : Arrays K)
      → reset_loop q.nnodes q.arrays ≡ some t
      → reset q ≡ some (record q { nnodes = 0; arrays = t })
  unfolding reset
  reset-eq q t h = rw h

  -- `Reset` gives an empty queue of the same capacity, with no node left in the locator.
  pub reset-Means :
      {f : ℕ → Option K} {q : PQueue K}
      → Means f q
      → (r : PQueue K) × (reset q ≡ some r)
        × Means (λ _. none) r
        × (r.nnodes ≡ 0)
        × (r.maxnodes ≡ q.maxnodes)
  reset-Means {q = q} st =
      let (t, run, empty) = reset_loop-Settled q.nnodes q.arrays st in
      (record q { nnodes = 0; arrays = t }, reset-eq q t run, empty, refl, refl)
