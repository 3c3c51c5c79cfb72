-- ===== src/Graph/Tests.antt =====
-- The check of a path of three vertices.
use gklib.Base.{ℕ, suc, ◌≡◌, refl, ap, Option, none, some, List, [], ◌∷◌, arith}
use gklib.Base.Outcome.{einval}
use gklib.Csr.{ℤ, pos, passed, failed, check_each, check_pointer, check_index}
use gklib.Csr.Verdict.{Decides}
use gklib.Csr.Valid.{HasRoom, rank}
use gklib.Graph.{Graph, check_edges, check_graph, validate_graph_structure}
use mathlib.Core.Path.{subst}
use gklib.Graph.Structure.{pointers_of, IsGraph, GraphHasRoom, validate_graph_structure-Decides}

program : Unit {0}
unfolding check_each check_pointer check_index check_edges check_graph validate_graph_structure
program = tt

abbrev offsets : List ℤ
offsets = pos 0 ∷ pos 1 ∷ pos 3 ∷ pos 4 ∷ []

abbrev neighbours : Option (List ℤ)
neighbours = some (pos 1 ∷ pos 0 ∷ pos 2 ∷ pos 1 ∷ [])

abbrev path : Graph ℕ
path = record { nvtxs = pos 3; xadj = some offsets; adjncy = neighbours; fadjwgt = none }

path_accepted : validate_graph_structure (some path) ≡ passed 4
unfolding program
path_accepted = refl

-- Without the last vertex an adjacency is out of range.
cut_refused : validate_graph_structure (some (record path { nvtxs = pos 2 })) ≡ failed einval
unfolding program
cut_refused = refl

offsets_room : HasRoom 3 offsets neighbours
offsets_room = (omega arith, λ n e. let h : 5 ≡ suc n = ap rank e in omega (arith, h))

path_room : GraphHasRoom path
path_room = λ v xadj e e'.
    let h : 4 ≡ suc v = ap rank e in
    let three : v ≡ 3 = omega (arith, h) in
    let same : offsets ≡ xadj = ap pointers_of e' in
    rw (three) (subst (λ p. HasRoom 3 p neighbours) same offsets_room)

validate_graph_structure-Decides_example :
    Decides (validate_graph_structure (some path)) (IsGraph path)
validate_graph_structure-Decides_example = validate_graph_structure-Decides path path_room
