-- ===== src/Sparse/Inverse.antt =====
-- gk_?array2csr of include/gk_mkutils.h: the positions of an array by their keys.
use gklib.Base.{
  ℕ, zero, suc, ◌+◌, ◌≤◌, ◌<◌, ◌≡◌, refl, ap, ◌∙◌, some, List, [], length, get_elem?, get_or, set,
  arith, length-set,
}
use gklib.Base.Arrays.{◌>>=◌, write, write-eq-some, get_elem?-get_or, get_or-set}
use gklib.Sparse.{bump, put, make_csr, shift_csr, for_range, array2csr}
use gklib.Sparse.Loops.{Entry, row_entries, row-each, for_range-zero, for_range-suc}
use gklib.Sparse.Counts.{count, AllBelow}
use gklib.Sparse.Pointers.{bumps-Counted, shift_csr-Opened}
use gklib.Sparse.Starts.{make_csr-Made}
use gklib.Sparse.Place.{place_from}
use gklib.Sparse.Views.{minor_of, Indexed, shifted-Indexed, row-AllBelow, length-row}
use gklib.Sparse.Index.{sum_below-below, AllBelow-mono}

-- The elements from `i` on, `n` of them, set to 0.
record Cleared (n i : ℕ) (a : List ℕ) : Type 0 where
  after : List ℕ
  run : for_range n i (λ j p. write p j 0) a ≡ some after
  size : length after ≡ length a
  zeros : (k : ℕ) → i ≤ k → k < i + n → get_or after k 0 ≡ 0
  rest : (k : ℕ) → k < i → get_or after k 0 ≡ get_or a k 0

clear-Cleared : (n i : ℕ) (a : List ℕ) → i + n ≤ length a → Cleared n i a
clear-Cleared zero i a h = record {
  after = a;
  run = for_range-zero i (λ j p. write p j 0) a;
  size = refl;
  zeros = λ k l m. absurd (omega arith);
  rest = λ k l. refl;
}
clear-Cleared (suc n) i a h =
    let same : length (set a i 0) ≡ length a = length-set a i 0 in
    let r = clear-Cleared n (suc i) (set a i 0) (omega (arith, same)) in
    record {
      after = r.after;
      run =
          for_range-suc n i (λ j p. write p j 0) a
          ∙ ap (λ o. o >>= λ p. for_range n (suc i) (λ j q. write q j 0) p)
              (write-eq-some a i 0 (omega arith))
          ∙ r.run;
      size = r.size ∙ same;
      zeros = λ k l m. ground (arith, r.zeros k, r.rest k, get_or-set a i k 0 0);
      rest = λ k l. ground (arith, r.rest k, get_or-set a i k 0 0);
    }

abbrev pub place_of : Entry → ℕ
place_of e = e.place

-- The positions of an array with their keys.
abbrev pub keyed : ℕ → List ℕ → List Entry
keyed n array = row_entries array 0 0 n

module _ (n range : ℕ) (array ptr ind : List ℕ) where
  array2csr-eq :
      (cleared counted starts ends ind' ptr' : List ℕ)
      → for_range (suc range) 0 (λ i p. write p i 0) ptr ≡ some cleared
      → for_range n 0 (λ i p. get_elem? array i >>= (λ k. bump k p)) cleared ≡ some counted
      → make_csr range counted ≡ some starts
      → for_range n 0 (λ i s. get_elem? array i >>= (λ k. put k i s)) (starts, ind)
        ≡ some (ends, ind')
      → shift_csr range ends ≡ some ptr'
      → array2csr n range array ptr ind ≡ some (ptr', ind')
  unfolding array2csr
  array2csr-eq cleared counted starts ends ind' ptr' e1 e2 e3 e4 e5 = rw (e1, e2, e3, e4, e5) refl

  -- `gk_?array2csr` of an array whose first `n` elements are below `range`, with room for `range` + 1
  -- pointers and `n` indices, stays inside its arrays; its pointers say how many elements are smaller,
  -- and its row `k` has the positions of the elements equal to `k`, each once, in increasing order.
  pub array2csr-Indexed :
      n ≤ length array
      → ((i : ℕ) → i < n → get_or array i 0 < range)
      → length ptr ≡ suc range
      → n ≤ length ind
      → (o : List ℕ × List ℕ) × ((array2csr n range array ptr ind ≡ some o)
          × Indexed minor_of place_of range (keyed n array) o.0 o.1)
  array2csr-Indexed long low wide room =
      let es = keyed n array in
      let size : length es ≡ n = length-row array 0 0 n in
      let bounded : AllBelow minor_of range es =
        row-AllBelow array range n 0 0 n low (omega arith) in
      let read : (j : ℕ) → j < n → get_elem? array j ≡ some (get_or array j 0) =
        λ j l. get_elem?-get_or array j 0 (omega (arith, long)) in
      let z = clear-Cleared (suc range) 0 ptr (omega (arith, wide)) in
      let c =
        bumps-Counted minor_of es z.after
          (rw (z.size, wide) (AllBelow-mono range (suc range) es (omega arith) bounded)) in
      let m =
        make_csr-Made (λ k. count minor_of k es) range c.after (omega (arith, c.size, z.size, wide))
          (λ k l. omega (arith, c.at k, z.zeros k)) in
      let width : length m.after ≡ suc range = m.size ∙ c.size ∙ z.size ∙ wide in
      let p = place_from minor_of place_of range es [] es m.after ind refl bounded (record {
        width = width;
        room = omega (arith, size, room);
        next = λ k l. omega (arith, m.at k (omega arith), sum_below-below minor_of es k);
        rows = λ k l. refl;
      }) in
      let o = shift_csr-Opened range p.ptr_after (omega (arith, p.filled.width)) in
      (
        (o.after, p.ind_after),
        (
          array2csr-eq z.after c.after m.after p.ptr_after p.ind_after o.after z.run
              (row-each n array (λ i j s. get_elem? array j >>= (λ k. bump k s))
                  (λ e s. bump (minor_of e) s) (λ i j s l. rw (read j l) refl) 0 0 n z.after
                  (omega arith)
                ∙ c.run)
              m.run
              (row-each n array (λ i j s. get_elem? array j >>= (λ k. put k j s))
                  (λ e s. put (minor_of e) (place_of e) s) (λ i j s l. rw (read j l) refl) 0 0 n
                  (m.after, ind) (omega arith)
                ∙ p.run)
              o.run,
          shifted-Indexed minor_of place_of range es p.ptr_after p.ind_after p.filled.width
              p.filled.next p.filled.rows o,
        ),
      )
