-- ===== src/Sparse/Place.antt =====
-- The loops that place entries.
pub mod Both
use mathlib.Core.Path.{subst}
use mathlib.Core.List.{map-append, append_assoc, append-nil}
use gklib.Base.{
  ℕ, zero, suc, ◌+◌, ◌≤◌, ◌<◌, ◌≡◌, refl, sym, ap, ◌∙◌, ◌⊎◌, inl, inr, true, false, none, some,
  List, [], ◌∷◌, ◌++◌, map, length, get_or, set, ◌==◌, ==_iff, arith, length-set, Bool-cases,
  tally-append, tally-le-length, ltb,
}
use gklib.Base.Arrays.{◌>>=◌, write-eq-some, get_elem?-get_or, get_or-set}
use gklib.Sparse.{put}
use gklib.Sparse.Loops.{each}
use gklib.Sparse.Segments.{stretch, stretch-set_apart, stretch-set_end}
use gklib.Sparse.Counts.{
  count, below, chosen, AllBelow, below-suc, below_apart, count_last, count_other, chosen_last,
  chosen_other,
}

pub put-eq :
    {A : Type 0} (k : ℕ) (a : A) (ptr : List ℕ) (ind : List A)
    → k < length ptr
    → get_or ptr k 0 < length ind
    → put k a (ptr, ind) ≡ some (set ptr k (suc (get_or ptr k 0)), set ind (get_or ptr k 0) a)
unfolding put
put-eq k a ptr ind h l =
    rw
      (
        get_elem?-get_or ptr k 0 h,
        write-eq-some ind (get_or ptr k 0) a l,
        write-eq-some ptr k (suc (get_or ptr k 0)) h,
      )
      refl

module _ {E A : Type 0} (key : E → ℕ) (g : E → A) (n : ℕ) (total : List E) where
  -- The entries `done` are placed.
  pub record Filled (done : List E) (ptr : List ℕ) (ind : List A) : Type 0 where
    pub width : length ptr ≡ suc n
    pub room : length total ≤ length ind
    pub next : (k : ℕ) → k < n → get_or ptr k 0 ≡ below key k total + count key k done
    pub rows :
        (k : ℕ)
        → k < n
        → stretch (below key k total) (count key k done) ind ≡ map g (chosen key k done)

  -- A part of the entries has at most as many of a key.
  count_part :
      (done rest : List E) (k : ℕ) → total ≡ done ++ rest → count key k done ≤ count key k total
  count_part done rest k e = rw e (omega (arith, tally-append (λ x. key x == k) done rest))

  count_here :
      (done rest : List E) (x : E)
      → total ≡ done ++ x ∷ rest
      → count key (key x) done < count key (key x) total
  count_here done rest x e =
      rw e (ground (arith, tally-append (λ y. key y == key x) done (x ∷ rest)))

  inside : (k : ℕ) → below key k total + count key k total ≤ length total
  inside k = omega (arith, below-suc key k total, tally-le-length (λ x. ltb (key x) (suc k)) total)

  -- The place of the next entry, against the place of another row.
  apart :
      (done rest : List E) (x : E) (k p : ℕ)
      → total ≡ done ++ x ∷ rest
      → p ≡ below key (key x) total + count key (key x) done
      → (key x == k) ≡ false
      → (p < below key k total) ⊎ (below key k total + count key k done ≤ p)
  apart done rest x k p e at other = ground (
    arith,
    at,
    other,
    count_here done rest x e,
    count_part done (x ∷ rest) k e,
    below_apart key (key x) k total,
    below_apart key k (key x) total,
  )

  row_grows :
      (done : List E) (x : E) (ind : List A) (p : ℕ)
      → p ≡ below key (key x) total + count key (key x) done
      → p < length ind
      → stretch (below key (key x) total) (count key (key x) done) ind
        ≡ map g (chosen key (key x) done)
      → stretch (below key (key x) total) (count key (key x) (done ++ x ∷ [])) (set ind p (g x))
        ≡ map g (chosen key (key x) (done ++ x ∷ []))
  row_grows done x ind p at free before =
      rw (count_last key (key x) done x refl, chosen_last key (key x) done x refl)
        (stretch-set_end ind (below key (key x) total) (count key (key x) done) p (g x) at free
          ∙ ap (λ r. r ++ g x ∷ []) before
          ∙ sym (map-append g (chosen key (key x) done) (x ∷ [])))

  pub filled_next :
      (done rest : List E) (x : E) (ptr : List ℕ) (ind : List A)
      → total ≡ done ++ x ∷ rest
      → key x < n
      → Filled done ptr ind
      → Filled
          (done ++ x ∷ [])
          (set ptr (key x) (suc (get_or ptr (key x) 0)))
          (set ind (get_or ptr (key x) 0) (g x))
  filled_next done rest x ptr ind e l w =
      let p = get_or ptr (key x) 0 in
      let at : p ≡ below key (key x) total + count key (key x) done = w.next (key x) l in
      let free : p < length ind =
        omega (arith, at, count_here done rest x e, inside (key x), w.room) in
      record {
        width = length-set ptr (key x) (suc p) ∙ w.width;
        room = omega (arith, w.room, length-set ind p (g x));
        next = λ k m. elim (Bool-cases (key x == k)) [
          | inl s ↦
              ground
                (arith, s, at, w.width, get_or-set ptr (key x) k (suc p) 0, count_last key k done x)
          | inr s ↦
              ground
                (arith, s, w.next k m, get_or-set ptr (key x) k (suc p) 0, count_other key k done x)
        ];
        rows = λ k m. elim (Bool-cases (key x == k)) [
          | inl s ↦
              let same : key x ≡ k = (==_iff (key x) k).0 s in
              subst
                (λ j.
                  stretch (below key j total) (count key j (done ++ x ∷ [])) (set ind p (g x))
                  ≡ map g (chosen key j (done ++ x ∷ [])))
                same (row_grows done x ind p at free (w.rows (key x) l))
          | inr s ↦
              rw (count_other key k done x s, chosen_other key k done x s)
                (stretch-set_apart ind (below key k total) (count key k done) p (g x)
                    (apart done rest x k p e at s)
                  ∙ w.rows k m)
        ];
      }

  -- What the loop over the entries from `done` on leaves.
  pub record Placed (done rest : List E) (ptr : List ℕ) (ind : List A) : Type 0 where
    pub ptr_after : List ℕ
    pub ind_after : List A
    pub run : each (λ e s. put (key e) (g e) s) rest (ptr, ind) ≡ some (ptr_after, ind_after)
    pub size : length ind_after ≡ length ind
    pub filled : Filled (done ++ rest) ptr_after ind_after

  pub next_free :
      (done rest : List E) (x : E) (ptr : List ℕ) (ind : List A)
      → total ≡ done ++ x ∷ rest
      → key x < n
      → Filled done ptr ind
      → get_or ptr (key x) 0 < length ind
  next_free done rest x ptr ind e l w =
      omega (arith, w.next (key x) l, count_here done rest x e, inside (key x), w.room)

  pub place_from :
      (done rest : List E) (ptr : List ℕ) (ind : List A)
      → total ≡ done ++ rest
      → AllBelow key n rest
      → Filled done ptr ind
      → Placed done rest ptr ind
  place_from done [] ptr ind e h w = record {
    ptr_after = ptr;
    ind_after = ind;
    run = refl;
    size = refl;
    filled = rw (append-nil done) w;
  }
  place_from done (x ∷ rest) ptr ind e (l, h) w =
      let p = get_or ptr (key x) 0 in
      let ptr' = set ptr (key x) (suc p) in
      let ind' = set ind p (g x) in
      let again : done ++ x ∷ rest ≡ (done ++ x ∷ []) ++ rest =
        sym (append_assoc done (x ∷ []) rest) in
      let r =
        place_from (done ++ x ∷ []) rest ptr' ind' (e ∙ again) h
          (filled_next done rest x ptr ind e l w) in
      record {
        ptr_after = r.ptr_after;
        ind_after = r.ind_after;
        run =
            ap (λ o. o >>= each (λ y s. put (key y) (g y) s) rest)
              (put-eq (key x) (g x) ptr ind (omega (arith, w.width))
                (next_free done rest x ptr ind e l w))
            ∙ r.run;
        size = r.size ∙ length-set ind p (g x);
        filled = subst (λ d. Filled d r.ptr_after r.ind_after) (sym again) r.filled;
      }
