-- ===== src/PQueue/Up.antt =====
-- The loop "Filter-up".
use gklib.Base.{
  ℕ, zero, suc, ◌<◌, ◌≡◌, ◌≢◌, ◌∙◌, true, Option, some, arith, ◌==◌, get_elem?, length, Bool-cases,
  inl, inr,
}
use gklib.Base.Arrays.{get_elem?-get_or}
use gklib.PQueue.{KeyOrder, Arrays, parent, move, filter_up}
use gklib.PQueue.State.{
  entry, key_at, Holed, Moved, move-Moved, Holed-move, Gapped, FitsUp, FitsDown,
}

module _ {K : Type 0} ⦃o : KeyOrder K⦄ where
  -- Where a loop may stop: the pending key can be written into the hole.
  pub record Stopped (m n node : ℕ) (f : ℕ → Option K) (key : K) (i : ℕ) (s : Arrays K)
      : Type 0 where
    pub holed : Holed m n i node f s
    pub gapped : Gapped n i s
    pub up : FitsUp i key s
    pub down : FitsDown n i key s

  pub read-entry :
      (s : Arrays K) (i : ℕ) → i < length s.heap → get_elem? s.heap i ≡ some (entry s i)
  read-entry s i h = get_elem?-get_or s.heap i (record { key = o.kmax; val = 0 }) h

  filter_up-stop :
      (fuel i : ℕ) (key : K) (s : Arrays K)
      → i < length s.heap
      → FitsUp i key s
      → filter_up (suc fuel) key i s ≡ some (i, s)
  unfolding filter_up
  filter_up-stop fuel i key s h up = elim (Bool-cases (i == 0)) [
    | inl e ↦ ground arith
    | inr e ↦ ground (arith, read-entry s (parent i), up)
  ]

  filter_up-rise :
      (fuel i : ℕ) (key : K) (s t : Arrays K)
      → i < length s.heap
      → 0 < i
      → o.lt key (key_at s (parent i)) ≡ true
      → move s i (parent i) ≡ some t
      → filter_up (suc fuel) key i s ≡ filter_up fuel key (parent i) t
  unfolding filter_up
  filter_up-rise fuel i key s t h pos above run = ground (arith, read-entry s (parent i))

  module _ {m n i node : ℕ} {f : ℕ → Option K} (key : K) {s t : Arrays K} (h : Holed m n i node f s)
      (mv : Moved i (parent i) s t) (pos : 0 < i)
      (above : o.lt key (key_at s (parent i)) ≡ true) where
    Gapped-rise : Gapped n i s → Gapped n (parent i) t
    Gapped-rise g = record {
      edges = λ c p hc nc npc.
          ground (arith, mv.entries c, mv.entries (parent c), g.edges c, g.bridge c);
      bridge = λ c p hc e pp. ground (
        arith,
        mv.entries c,
        mv.entries (parent (parent i)),
        g.edges c,
        g.edges (parent i),
        o.le_trans (key_at s (parent (parent i))) (key_at s (parent i)) (key_at s c),
      );
    }

    FitsDown-rise : Gapped n i s → FitsDown n (parent i) key t
    FitsDown-rise g = λ c p hc e. ground (
      arith,
      mv.entries c,
      g.edges c,
      o.lt_asym key (key_at s (parent i)),
      o.le_trans key (key_at s (parent i)) (key_at s c),
    )

  -- From a hole whose children are not below the key the loop ends at a place for the key.
  pub filter_up-Stopped :
      (fuel : ℕ) {m n node : ℕ} {f : ℕ → Option K} (key : K) (i : ℕ) (s : Arrays K)
      → i < fuel
      → Holed m n i node f s
      → Gapped n i s
      → FitsDown n i key s
      → (i' : ℕ) × (t : Arrays K) × (filter_up fuel key i s ≡ some (i', t))
        × Stopped m n node f key i' t
  filter_up-Stopped zero key i s lt h g down = absurd (omega arith)
  filter_up-Stopped (suc fuel) {m = m} {n = n} key i s lt h g down =
      let inside : i < length s.heap = omega (arith, h.heap_size, h.within, h.bounded) in
      elim (Bool-cases (i == 0)) [
        | inl root ↦
            let up : FitsUp i key s = λ pos. absurd (ground arith) in
            (
              i,
              s,
              filter_up-stop fuel i key s inside up,
              record { holed = h; gapped = g; up = up; down = down },
            )
        | inr deep ↦ elim (Bool-cases (o.lt key (key_at s (parent i)))) [
          | inr fits ↦
              let up : FitsUp i key s = λ pos. fits in
              (
                i,
                s,
                filter_up-stop fuel i key s inside up,
                record { holed = h; gapped = g; up = up; down = down },
              )
          | inl above ↦
              let pos : 0 < i = ground arith in
              let low : parent i < n = omega (arith, h.within) in
              let ne : parent i ≢ i = omega arith in
              let (t, run, mv) =
                move-Moved s i (parent i) inside (omega arith)
                  (omega (arith, (h.held (parent i) low ne).0, h.locator_size)) in
              let (i', u, more, stop) =
                filter_up-Stopped fuel key (parent i) t (omega arith) (Holed-move h low ne t mv)
                  (Gapped-rise key h mv pos above g) (FitsDown-rise key h mv pos above g) in
              (i', u, filter_up-rise fuel i key s t inside pos above run ∙ more, stop)
        ]
      ]
