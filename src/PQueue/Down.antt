-- ===== src/PQueue/Down.antt =====
-- The loop "Filter down".
use gklib.Base.{
  ℕ, zero, suc, ◌+◌, ◌*◌, ◌≤◌, ◌<◌, ◌≡◌, ◌≢◌, ◌∙◌, true, false, Option, none, some, arith, ltb,
  if◌then◌else◌, length, Bool-cases, inl, inr, ◌⊎◌,
}
use gklib.PQueue.{KeyOrder, Arrays, parent, move, below, right_below, pick, filter_down}
use gklib.PQueue.State.{key_at, Holed, Moved, move-Moved, Holed-move, Gapped, FitsUp, FitsDown}
use gklib.PQueue.Up.{Stopped, read-entry}

children : (c i : ℕ) → 0 < c → parent c ≡ i → (c ≡ 2 * i + 1) ⊎ (c ≡ 2 * i + 1 + 1)
children c i p e = omega arith

module _ {K : Type 0} ⦃o : KeyOrder K⦄ where
  -- The child that goes up is in the heap, has a key below the pending one, and none of its
  -- siblings has a lower key.
  record Picked (n i : ℕ) (key : K) (s : Arrays K) (j : ℕ) : Type 0 where
    child : (0 < j) × (j < n) × (parent j ≡ i)
    low : o.lt (key_at s j) key ≡ true
    least : (c : ℕ) → 0 < c → c < n → parent c ≡ i → o.lt (key_at s c) (key_at s j) ≡ false

  right_below-read :
      (s : Arrays K) (n j : ℕ) (key : K)
      → n ≤ length s.heap
      → right_below s n j key ≡ some (if ltb (j + 1) n then o.lt (key_at s (j + 1)) key else false)
  unfolding right_below below
  right_below-read s n j key h = ground (arith, read-entry s (j + 1))

  pub lt_irrefl : (a : K) → o.lt a a ≡ false
  lt_irrefl a = ground (arith, o.lt_asym a a)

  abbrev Choice : ℕ → ℕ → K → Arrays K → Option ℕ → Type 0
  Choice n i key s none = FitsDown n i key s
  Choice n i key s (some j) = Picked n i key s j

  module _ (s : Arrays K) (n i : ℕ) (key : K) (full : n ≤ length s.heap)
      (left : 2 * i + 1 < n) where
    abbrev one : ℕ
    one = 2 * i + 1

    pick-Choice : (c : Option ℕ) × (pick s n one key ≡ some c) × Choice n i key s c
    unfolding pick
    pick-Choice =
        let r = read-entry s one (omega arith) in
        elim (Bool-cases (o.lt (key_at s one) key)) [
          | inl low ↦
              elim (Bool-cases
                (if ltb (one + 1) n then o.lt (key_at s (one + 1)) (key_at s one) else false)) [
                  | inl right ↦ (
                    some (one + 1),
                    rw (r, low, right_below-read s n one (key_at s one) full, right),
                    record {
                      child = (omega arith, ground arith, omega arith);
                      low = ground (
                        arith,
                        o.lt_asym (key_at s one) key,
                        o.le_trans (key_at s one) key (key_at s (one + 1)),
                      );
                      least = λ c p hc e. ground (
                        arith,
                        children c i p e,
                        lt_irrefl (key_at s (one + 1)),
                        o.lt_asym (key_at s (one + 1)) (key_at s one),
                      );
                    },
                  )
                  | inr stay ↦ (
                    some one,
                    rw (r, low, right_below-read s n one (key_at s one) full, stay),
                    record {
                      child = (omega arith, left, omega arith);
                      low = low;
                      least =
                          λ c p hc e. ground (arith, children c i p e, lt_irrefl (key_at s one));
                    },
                  )
                ]
          | inr high ↦
              elim (Bool-cases (if ltb (one + 1) n then o.lt (key_at s (one + 1)) key else false)) [
                | inl right ↦ (
                  some (one + 1),
                  rw (r, high, right_below-read s n one key full, right),
                  record {
                    child = (omega arith, ground arith, omega arith);
                    low = ground arith;
                    least = λ c p hc e. ground (
                      arith,
                      children c i p e,
                      lt_irrefl (key_at s (one + 1)),
                      o.lt_asym (key_at s (one + 1)) key,
                      o.le_trans (key_at s (one + 1)) key (key_at s one),
                    );
                  },
                )
                | inr none_low ↦ (
                  none,
                  rw (r, high, right_below-read s n one key full, none_low),
                  λ c p hc e. ground (arith, children c i p e),
                )
              ]
        ]

  module _ {m n i j node : ℕ} {f : ℕ → Option K} (key : K) {s t : Arrays K}
      (h : Holed m n i node f s) (mv : Moved i j s t) (p : Picked n i key s j) where
    Gapped-sink : Gapped n i s → Gapped n j t
    Gapped-sink g = record {
      edges = λ c pos hc nc npc.
          ground
            (arith, p.child, mv.entries c, mv.entries (parent c), g.edges c, g.bridge j, p.least c);
      bridge =
          λ c pos hc e pp. ground (arith, p.child, mv.entries c, mv.entries (parent j), g.edges c);
    }

    FitsUp-sink : FitsUp j key t
    FitsUp-sink =
        λ pos. ground (arith, p.child, p.low, mv.entries (parent j), o.lt_asym (key_at s j) key)

  filter_down-leaf :
      (fuel n i : ℕ) (key : K) (s : Arrays K)
      → ltb (2 * i + 1) n ≡ false
      → filter_down (suc fuel) key n i s ≡ some (i, s)
  unfolding filter_down
  filter_down-leaf fuel n i key s h = ground arith

  filter_down-stop :
      (fuel n i : ℕ) (key : K) (s : Arrays K)
      → ltb (2 * i + 1) n ≡ true
      → pick s n (2 * i + 1) key ≡ some none
      → filter_down (suc fuel) key n i s ≡ some (i, s)
  unfolding filter_down
  filter_down-stop fuel n i key s h run = ground arith

  filter_down-sink :
      (fuel n i j : ℕ) (key : K) (s t : Arrays K)
      → ltb (2 * i + 1) n ≡ true
      → pick s n (2 * i + 1) key ≡ some (some j)
      → move s i j ≡ some t
      → filter_down (suc fuel) key n i s ≡ filter_down fuel key n j t
  unfolding filter_down
  filter_down-sink fuel n i j key s t h run mv = ground arith

  abbrev Ends : ℕ → ℕ → ℕ → (ℕ → Option K) → K → Option (ℕ × Arrays K) → Type 0
  Ends m n node f key r = (i : ℕ) × (t : Arrays K) × (r ≡ some (i, t)) × Stopped m n node f key i t

  -- From a hole whose parent is not above the key the loop ends at a place for the key.
  pub filter_down-Stopped :
      (fuel : ℕ) {m n node : ℕ} {f : ℕ → Option K} (key : K) (i : ℕ) (s : Arrays K)
      → n ≤ fuel + i
      → Holed m n i node f s
      → Gapped n i s
      → FitsUp i key s
      → (i' : ℕ) × (t : Arrays K) × (filter_down fuel key n i s ≡ some (i', t))
        × Stopped m n node f key i' t
  filter_down-Stopped zero key i s lt h g up = absurd (omega (arith, h.within))
  filter_down-Stopped (suc fuel) {m = m} {n = n} {node = node} {f = f} key i s lt h g up =
      elim (Bool-cases (ltb (2 * i + 1) n)) [
        | inr leaf ↦ (
          i,
          s,
          filter_down-leaf fuel n i key s leaf,
          record { holed = h; gapped = g; up = up; down = λ c p hc e. absurd (ground arith) },
        )
        | inl more ↦
            let (c, run, choice) =
              pick-Choice s n i key (omega (arith, h.heap_size, h.bounded)) (ground arith) in
            sink c more run choice (λ j t. filter_down-Stopped fuel key j t)
      ]
    where
      sink :
          (c : Option ℕ)
          → ltb (2 * i + 1) n ≡ true
          → pick s n (2 * i + 1) key ≡ some c
          → Choice n i key s c
          → ((j : ℕ) (t : Arrays K)
              → n ≤ fuel + j
              → Holed m n j node f t
              → Gapped n j t
              → FitsUp j key t
              → Ends m n node f key (filter_down fuel key n j t))
          → Ends m n node f key (filter_down (suc fuel) key n i s)
      sink none more run fits again = (
        i,
        s,
        filter_down-stop fuel n i key s more run,
        record { holed = h; gapped = g; up = up; down = fits },
      )
      sink (some j) more run p again =
          let (pos, low, edge) = p.child in
          let ne : j ≢ i = omega arith in
          let (t, moves, mv) =
            move-Moved s i j (omega (arith, h.heap_size, h.within, h.bounded))
              (omega (arith, h.heap_size, h.bounded))
              (omega (arith, (h.held j low ne).0, h.locator_size)) in
          let (i', u, rest, stop) =
            again j t (omega arith) (Holed-move h low ne t mv) (Gapped-sink key h mv p g)
              (FitsUp-sink key h mv p) in
          (i', u, filter_down-sink fuel n i j key s t more run moves ∙ rest, stop)
