-- ===== src/Graph/Structure.antt =====
-- gk_graph_ValidateStructure and the valid graphs.
use gklib.Base.{
  ℕ, suc, ◌+◌, ◌/◌, ◌≤◌, ◌<◌, ◌≡◌, refl, ap, inl, inr, true, false, not, ◌&&◌, Option, none, some,
  List, [], arith, ltb, num,
}
use gklib.Base.Outcome.{einval, eoverflow}
use gklib.Base.Size.{size_max}
use gklib.Csr.{ℤ, pos, negsuc, ◌>>=◌, refuse_if, present, check_pointer, not_negative}
use gklib.Csr.Verdict.{
  Decides, DecidesOf, iff-Decides, then-Decides, refuse-Decides, each-Decides, read-passed,
}
use gklib.Csr.Valid.{at, Step, AllInRange, Reaches, HasRoom, rank}
use gklib.Csr.Entries.{pointer-Decides, EmptyIfNull, small-Decides, indices-Decides}
use gklib.Csr.SparseView.{zero-Decides, empty_if}
use gklib.Graph.{Graph, check_edges, check_graph, validate_graph_structure}

-- A valid graph of `n` edges: the pointers of the vertices rise from 0 to `n`, and the adjacencies are
-- vertices.
pub record IsGraph {W : Type 0} (g : Graph W) (n : ℕ) : Type 0 where
  pub vertices : ℕ
  pub pointers : List ℤ
  pub nvtxs : g.nvtxs ≡ pos vertices
  pub xadj : g.xadj ≡ some pointers
  pub first : at pointers 0 ≡ pos 0
  pub rising : (k : ℕ) → k < vertices → Step (at pointers k) (at pointers (suc k))
  pub last : at pointers vertices ≡ pos n
  pub inside : AllInRange vertices n g.adjncy
  pub few : suc vertices ≤ size_max / 8
  pub small : n ≤ size_max / 4

-- The arrays reach as far as the numbers of the graph say.
abbrev pub GraphHasRoom : {W : Type 0} → Graph W → Type 0
GraphHasRoom g =
    (v : ℕ) (xadj : List ℤ) → g.nvtxs ≡ pos v → g.xadj ≡ some xadj → HasRoom v xadj g.adjncy

edges-Decides :
    (n : ℕ) (adjncy : Option (List ℤ))
    → DecidesOf (refuse_if (ltb 0 n && not (present adjncy)) einval) (EmptyIfNull n adjncy)
edges-Decides n none =
    refuse-Decides (ltb 0 n && true) einval (λ h. ground (arith, h)) (λ h p. ground (arith, h, p))
edges-Decides n (some a) =
    refuse-Decides (ltb 0 n && false) einval (λ h. tt) (λ h p. ground (arith, h))

module _ {W : Type 0} (nvtxs : ℕ) (xadj : List ℤ) (adjncy : Option (List ℤ))
    (fadjwgt : Option W) where
  -- What follows the check of the pointers, and all.
  abbrev Counted : ℤ → ℕ → Type 0
  Counted a m =
      (a ≡ pos m) × ((m ≤ size_max / 4) × (EmptyIfNull m adjncy × AllInRange nvtxs m adjncy))

  abbrev Summed : ℕ → Type 0
  Summed m =
      (at xadj 0 ≡ pos 0)
      × ((suc nvtxs ≤ size_max / 8)
          × (((k : ℕ) → 0 ≤ k → k < 0 + nvtxs → Step (at xadj k) (at xadj (suc k)))
              × Counted (at xadj nvtxs) m))

  last-Decides :
      (a : ℤ)
      → ((n : ℕ) → a ≡ pos n → Reaches n adjncy)
      → Decides (not_negative a >>= check_edges nvtxs adjncy fadjwgt) (Counted a)
  unfolding check_edges
  last-Decides (negsuc a) reach =
      inr (einval, (refl, λ m c. let h : 0 ≡ suc m = ap rank c.0 in absurd (omega (arith, h))))
  last-Decides (pos n) reach =
      iff-Decides
        {P = λ m.
          (n ≤ size_max / 4) × (EmptyIfNull n adjncy × (AllInRange nvtxs n adjncy × (m ≡ n)))}
        _ (λ m p. rw (p.1.1.1) (refl, (p.0, (p.1.0, p.1.1.0))))
        (λ m c.
          let h : suc n ≡ suc m = ap rank c.0 in
          let same : m ≡ n = omega (arith, h) in
          (rw same at c.1.0, (rw same at c.1.1.0, (rw same at c.1.1.1, same))))
        (then-Decides _ _ (small-Decides n fadjwgt) (λ _.
          then-Decides _ _ (edges-Decides n adjncy) (λ p.
            then-Decides _ _ (indices-Decides nvtxs n adjncy (reach n refl) p)
              (λ _. inl (n, (refl, refl))))))

  graph-Decides : HasRoom nvtxs xadj adjncy → Decides (check_graph nvtxs xadj adjncy fadjwgt) Summed
  unfolding check_graph
  graph-Decides (wide, reach) =
      rw (read-passed xadj 0 (pos 0) (omega (arith, wide)), read-passed xadj nvtxs (pos 0) wide)
        (then-Decides _ _ (zero-Decides (at xadj 0)) (λ _.
          then-Decides _ _
            (refuse-Decides (ltb (size_max / 8) (suc nvtxs)) eoverflow (λ h. ground (arith, h))
              (λ h p. ground (arith, h, p)))
            (λ _.
              then-Decides _ _
                (each-Decides (check_pointer xadj) nvtxs 0
                  (λ k l m. pointer-Decides xadj k (omega (arith, wide))))
                (λ _. last-Decides (at xadj nvtxs) reach))))

-- The pointers, or none.
abbrev pub pointers_of : Option (List ℤ) → List ℤ
pointers_of none = []
pointers_of (some p) = p

module _ {W : Type 0} (adjncy : Option (List ℤ)) (fadjwgt : Option W) where
  abbrev with_vertices : ℤ → Option (List ℤ) → Graph W
  with_vertices a xadj = record { nvtxs = a; xadj = xadj; adjncy = adjncy; fadjwgt = fadjwgt }

  collected :
      (v : ℕ) (xadj : List ℤ) (n : ℕ)
      → Summed v xadj adjncy fadjwgt n
      → IsGraph (with_vertices (pos v) (some xadj)) n
  collected v xadj n (first, (few, (rising, (last, (small, (empty, inside)))))) = record {
    vertices = v;
    pointers = xadj;
    nvtxs = refl;
    xadj = refl;
    first = first;
    rising = λ k l. rising k (omega arith) (omega arith);
    last = last;
    inside = inside;
    few = few;
    small = small;
  }

  apart :
      (v : ℕ) (xadj : List ℤ) (n : ℕ)
      → IsGraph (with_vertices (pos v) (some xadj)) n
      → Summed v xadj adjncy fadjwgt n
  apart v xadj n g =
      let h : suc v ≡ suc g.vertices = ap rank g.nvtxs in
      let e : v ≡ g.vertices = omega (arith, h) in
      let e' : xadj ≡ g.pointers = ap pointers_of g.xadj in
      rw (e, e')
        (
          g.first,
          (
            g.few,
            (
              λ k l m. g.rising k (omega arith),
              (g.last, (g.small, (empty_if g.vertices n adjncy g.inside, g.inside))),
            ),
          ),
        )

  with_vertices-Decides :
      (a : ℤ) (xadj : Option (List ℤ))
      → GraphHasRoom (with_vertices a xadj)
      → Decides
          (validate_graph_structure (some (with_vertices a xadj)))
          (IsGraph (with_vertices a xadj))
  unfolding validate_graph_structure
  with_vertices-Decides (negsuc a) xadj room = inr (
    einval,
    (refl, λ n g. let h : 0 ≡ suc g.vertices = ap rank g.nvtxs in absurd (omega (arith, h))),
  )
  with_vertices-Decides (pos v) none room = inr (
    einval,
    (refl, λ n g. let h : 0 ≡ 1 = ap (λ o. num (present o)) g.xadj in absurd (omega (arith, h))),
  )
  with_vertices-Decides (pos v) (some xadj) room =
      iff-Decides (check_graph v xadj adjncy fadjwgt) (collected v xadj) (apart v xadj)
        (graph-Decides v xadj adjncy fadjwgt (room v xadj refl refl))

-- `gk_graph_ValidateStructure` of a graph whose arrays reach as far as its numbers say reads no place
-- outside them; it returns the number of edges exactly if the graph is valid with that number, and
-- otherwise fails with an error.
pub validate_graph_structure-Decides :
    {W : Type 0} (g : Graph W)
    → GraphHasRoom g
    → Decides (validate_graph_structure (some g)) (IsGraph g)
validate_graph_structure-Decides g room =
    with_vertices-Decides g.adjncy g.fadjwgt g.nvtxs g.xadj room
