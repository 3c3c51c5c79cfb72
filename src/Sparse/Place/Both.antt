-- ===== src/Sparse/Place/Both.antt =====
-- The loop that places two arrays at once, against two loops.
use mathlib.Core.List.{append_assoc}
use gklib.Base.{
  ℕ, suc, ◌<◌, ◌≡◌, refl, sym, ap, ◌∙◌, some, List, [], ◌∷◌, ◌++◌, length, get_or, set, arith,
}
use gklib.Base.Arrays.{◌>>=◌, write-eq-some, get_elem?-get_or}
use gklib.Sparse.{put_both}
use gklib.Sparse.Loops.{each}
use gklib.Sparse.Counts.{AllBelow}
use gklib.Sparse.Place.{Filled, Placed, next_free, filled_next, place_from}

put_both-eq :
    {V : Type 0} (k i : ℕ) (v : V) (ptr ind : List ℕ) (val : List V)
    → k < length ptr
    → get_or ptr k 0 < length ind
    → get_or ptr k 0 < length val
    → put_both k i v (ptr, (ind, val))
      ≡ some (
        set ptr k (suc (get_or ptr k 0)),
        (set ind (get_or ptr k 0) i, set val (get_or ptr k 0) v),
      )
unfolding put_both
put_both-eq k i v ptr ind val h l m =
    rw
      (
        get_elem?-get_or ptr k 0 h,
        write-eq-some ind (get_or ptr k 0) i l,
        write-eq-some val (get_or ptr k 0) v m,
        write-eq-some ptr k (suc (get_or ptr k 0)) h,
      )
      refl

module _ {E V : Type 0} (key major : E → ℕ) (value : E → V) (n : ℕ) (total : List E) where
  -- The two loops, one at a time.
  abbrev pub placed_majors :
      (done rest : List E) (ptr ind : List ℕ)
      → total ≡ done ++ rest
      → AllBelow key n rest
      → Filled key major n total done ptr ind
      → Placed key major n total done rest ptr ind
  placed_majors = place_from key major n total

  abbrev pub placed_values :
      (done rest : List E) (ptr : List ℕ) (val : List V)
      → total ≡ done ++ rest
      → AllBelow key n rest
      → Filled key value n total done ptr val
      → Placed key value n total done rest ptr val
  placed_values = place_from key value n total

  pub both_from :
      (done rest : List E) (ptr ind : List ℕ) (val : List V) (e : total ≡ done ++ rest)
      (h : AllBelow key n rest) (w : Filled key major n total done ptr ind)
      (v : Filled key value n total done ptr val)
      → each (λ x s. put_both (key x) (major x) (value x) s) rest (ptr, (ind, val))
        ≡ some (
          (placed_majors done rest ptr ind e h w).ptr_after,
          (
            (placed_majors done rest ptr ind e h w).ind_after,
            (placed_values done rest ptr val e h v).ind_after,
          ),
        )
  unfolding place_from
  both_from done [] ptr ind val e h w v = refl
  both_from done (x ∷ rest) ptr ind val e (l, h) w v =
      ap (λ o. o >>= each (λ y s. put_both (key y) (major y) (value y) s) rest)
        (put_both-eq (key x) (major x) (value x) ptr ind val (omega (arith, w.width))
          (next_free key major n total done rest x ptr ind e l w)
          (next_free key value n total done rest x ptr val e l v))
      ∙ both_from (done ++ x ∷ []) rest (set ptr (key x) (suc (get_or ptr (key x) 0)))
          (set ind (get_or ptr (key x) 0) (major x)) (set val (get_or ptr (key x) 0) (value x))
          (e ∙ sym (append_assoc done (x ∷ []) rest)) h
          (filled_next key major n total done rest x ptr ind e l w)
          (filled_next key value n total done rest x ptr val e l v)
