-- ===== src/Graph.antt =====
-- The check that the transformations of src/graph.c start with: gk_graph_ValidateStructure. The
-- pointers and the adjacencies are integers, null pointers are `none`, and the edge weights count only
-- by their presence.
pub mod Structure
mod Tests
use gklib.Base.{
  ℕ, suc, ◌/◌, Bool, true, false, ◌&&◌, ◌||◌, not, Option, none, some, List, [], ◌∷◌, ltb,
}
use gklib.Base.Outcome.{Errno, einval, eoverflow}
use gklib.Base.Size.{size_max}
use gklib.Csr.{
  ℤ, pos, negsuc, Checked, passed, failed, ◌>>=◌, ◌>>◌, read, refuse_if, present, check_each,
  nonzero, check_pointer, check_index, not_negative,
}

-- The fields of `gk_graph_t` that the check looks at.
pub record Graph (W : Type 0) : Type 0 where
  pub nvtxs : ℤ
  pub xadj : Option (List ℤ)
  pub adjncy : Option (List ℤ)
  pub fadjwgt : Option W

module _ {W : Type 0} where
  -- The last checks, where `nedges` edges are found. Weights may stand without adjacencies if there
  -- are no edges.
  unfoldable pub check_edges : ℕ → Option (List ℤ) → Option W → ℕ → Checked ℕ
  check_edges nvtxs adjncy fadjwgt nedges = do
    refuse_if (ltb (size_max / 4) nedges || (present fadjwgt && ltb (size_max / 4) nedges))
        eoverflow
    refuse_if (ltb 0 nedges && not (present adjncy)) einval
    check_each nedges 0 (check_index nvtxs adjncy)
    passed nedges

  -- The checks of a graph with its pointers, after the sign of the number of vertices.
  unfoldable pub check_graph : ℕ → List ℤ → Option (List ℤ) → Option W → Checked ℕ
  check_graph nvtxs xadj adjncy fadjwgt = do
    first ← read xadj 0
    refuse_if (nonzero first) einval
    refuse_if (ltb (size_max / 8) (suc nvtxs)) eoverflow
    check_each nvtxs 0 (check_pointer xadj)
    last ← read xadj nvtxs
    nedges ← not_negative last
    check_edges nvtxs adjncy fadjwgt nedges

  -- `gk_graph_ValidateStructure`; the result is `*r_nedges`.
  unfoldable pub validate_graph_structure : Option (Graph W) → Checked ℕ
  validate_graph_structure none = failed einval
  validate_graph_structure (some g) = not_negative g.nvtxs >>= λ nvtxs. elim g.xadj [
    | none ↦ failed einval
    | some xadj ↦ check_graph nvtxs xadj g.adjncy g.fadjwgt
  ]
