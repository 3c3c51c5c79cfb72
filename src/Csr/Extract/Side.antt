-- ===== src/Csr/Extract/Side.antt =====
-- The side of rows that gk_csr_ExtractSubmatrix returns.
use mathlib.Core.Path.{subst}
use gklib.Base.{
  ℕ, suc, ◌+◌, ◌-◌, ◌≤◌, ◌<◌, ◌≡◌, refl, sym, ap, ◌∙◌, true, Option, none, some, List, leb, arith,
  drop,
}
use gklib.Csr.{ℤ, pos, negsuc}
use gklib.Csr.Valid.{at, Step, AllInRange, Paired, IsSparse}
use gklib.Csr.Extract.{Rows, minus}
use gklib.Csr.Extract.Copies.{part}
use gklib.Csr.Extract.Rebase.{rise}
use gklib.Csr.Extract.Submatrix.{Extracted, at-take, at-drop}

Step-minus : (a x y : ℤ) → Step a x → Step x y → Step (minus x a) (minus y a)
Step-minus (pos a) (pos x) (pos y) s t =
    let e : leb a x ≡ true = ground (arith, s) in
    let e' : leb a y ≡ true = ground (arith, s, t) in rw (e, e') (omega (arith, s, t))
Step-minus (pos a) (pos x) (negsuc y) s t = absurd t
Step-minus (pos a) (negsuc x) y s t = absurd s
Step-minus (negsuc a) x y s t = absurd s

minus_same : (a n : ℕ) → minus (pos (a + n)) (pos a) ≡ pos n
minus_same a n =
    let e : leb a (a + n) ≡ true = ground arith in
    let e' : a + n - a ≡ n = omega arith in rw (e, e') refl

part-Paired :
    {V : Type 0} (ind : Option (List ℤ)) (val : Option (List V)) (from n : ℕ)
    → Paired ind val
    → Paired (part ind from n) (part val from n)
part-Paired none none from n p = p
part-Paired none (some v) from n p = p
part-Paired (some ind) val from n p = p

part-AllInRange :
    (other n from nnz : ℕ) (ind : Option (List ℤ))
    → from + nnz ≤ n
    → AllInRange other n ind
    → AllInRange other nnz (part ind from nnz)
part-AllInRange other n from nnz none h inside = omega (arith, h, inside)
part-AllInRange other n from nnz (some ind) h inside = λ k l.
    rw (at-take (drop from ind) nnz k l, at-drop ind from k)
      (inside (from + k) (omega (arith, h, l)))

module _ {V : Type 0} (m : Rows V) (ptr : List ℤ) {dimension other n : ℕ}
    (s : IsSparse dimension other ptr m.rowind m.rowval n) (rstart nrows : ℕ)
    (inside : rstart + nrows ≤ dimension) (r : Rows V) (x : Extracted m ptr rstart nrows r) where
  from_start : (k : ℕ) → k ≤ nrows → Step (pos x.from) (at ptr (rstart + k))
  from_start k h =
      subst (λ a. Step a (at ptr (rstart + k))) x.start (rise s rstart k (omega (arith, h, inside)))

  pub stop_low : x.from + x.nnz ≤ n
  stop_low =
      let d = dimension - (rstart + nrows) in
      let e : rstart + nrows + d ≡ dimension = omega (arith, inside) in
      let up : Step (at ptr (rstart + nrows)) (at ptr (rstart + nrows + d)) =
        rise s (rstart + nrows) d (omega (arith, inside)) in
      let up' : Step (at ptr (rstart + nrows)) (at ptr dimension) =
        subst (λ i. Step (at ptr (rstart + nrows)) (at ptr i)) e up in
      let up'' : Step (pos (x.from + x.nnz)) (at ptr dimension) =
        subst (λ a. Step a (at ptr dimension)) x.stop up' in
      let top : Step (pos (x.from + x.nnz)) (pos n) =
        subst (Step (pos (x.from + x.nnz))) s.last up'' in
      top

  extracted_first : at x.pointers 0 ≡ pos 0
  extracted_first =
      let e : rstart + 0 ≡ rstart = omega arith in
      let e' : x.from ≡ x.from + 0 = omega arith in
      x.rebased 0 (omega arith)
      ∙ ap (λ i. minus (at ptr i) (pos x.from)) e
      ∙ ap (λ a. minus a (pos x.from)) (x.start ∙ ap pos e')
      ∙ minus_same x.from 0

  extracted_rising : (k : ℕ) → k < nrows → Step (at x.pointers k) (at x.pointers (suc k))
  extracted_rising k l =
      let e : suc (rstart + k) ≡ rstart + suc k = omega arith in
      let up : Step (at ptr (rstart + k)) (at ptr (rstart + suc k)) =
        subst (λ i. Step (at ptr (rstart + k)) (at ptr i)) e
          (s.rising (rstart + k) (omega (arith, l, inside))) in
      rw (x.rebased k (omega (arith, l)), x.rebased (suc k) (omega (arith, l)))
        (Step-minus (pos x.from) (at ptr (rstart + k)) (at ptr (rstart + suc k))
          (from_start k (omega (arith, l))) up)

  pub extracted_last : at x.pointers nrows ≡ pos x.nnz
  extracted_last =
      x.rebased nrows (omega arith)
      ∙ ap (λ a. minus a (pos x.from)) x.stop
      ∙ minus_same x.from x.nnz

  pub Extracted-IsSparse : IsSparse nrows other x.pointers r.rowind r.rowval x.nnz
  Extracted-IsSparse =
      subst (λ q. IsSparse nrows other x.pointers q.rowind q.rowval x.nnz) (sym x.rows)
        (record {
          first = extracted_first;
          rising = extracted_rising;
          last = extracted_last;
          inside = part-AllInRange other n x.from x.nnz m.rowind stop_low s.inside;
          paired = part-Paired m.rowind m.rowval x.from x.nnz s.paired;
          few = omega (arith, s.few, inside);
          small = omega (arith, s.small, stop_low);
        })
