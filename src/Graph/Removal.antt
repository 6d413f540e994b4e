-- ===== src/Graph/Removal.antt =====
-- RemoveNodes of internal/graph/memory.go: which nodes and which edges it leaves.
use code_rag.Common.{
  String, false, none, List, [], ◌∷◌, ◌≡◌, ◌||◌, arith, str_eq, str_eq_iff, str_mem, Bool-cases,
  inl, inr, Remaining, if◌then◌else◌,
}
use code_rag.Graph.Types.{Values, Node, Edge, MemoryGraph}
use code_rag.Graph.Nodes.{find_node, get_node, keep_nodes, keep_edges, remove_nodes}

module _ (V : Values) (ids : List String) where
  find_node-keep_nodes :
      (nodes : List (Node V)) (id : String)
      → find_node V (keep_nodes V ids nodes) id
        ≡ (if str_mem id ids then none else find_node V nodes id)
  unfolding find_node keep_nodes
  find_node-keep_nodes [] id = ground arith
  find_node-keep_nodes (n ∷ nodes) id = elim (Bool-cases (str_eq n.id id)) [
    | inl same ↦
        rw (← (str_eq_iff n.id id).0 same)
          (ground (arith, find_node-keep_nodes nodes n.id, str_eq_iff n.id n.id))
    | inr differs ↦ ground (arith, find_node-keep_nodes nodes id)
  ]

  -- An edge with both ends outside the removed nodes.
  abbrev pub IsApart : Edge V → Type 0
  IsApart e = (str_mem e.from_id ids ≡ false) × (str_mem e.to_id ids ≡ false)

  keep_edges-Remaining : (edges : List (Edge V)) → Remaining IsApart edges (keep_edges V ids edges)
  unfolding keep_edges
  keep_edges-Remaining [] = Remaining.end
  keep_edges-Remaining (e ∷ edges) =
      elim (Bool-cases (str_mem e.from_id ids || str_mem e.to_id ids)) [
        | inl touches ↦
            rw touches (Remaining.gone (λ apart. ground arith) (keep_edges-Remaining edges))
        | inr apart ↦ rw apart (Remaining.stays (ground arith) (keep_edges-Remaining edges))
      ]

  -- After RemoveNodes a removed identifier has no node and every other one the node that it had. The
  -- edges are those that were there before, in their order, without exactly the ones that have an end among
  -- the removed identifiers.
  pub remove_nodes_lem :
      (r : MemoryGraph V)
      → ((id : String)
          → get_node V (remove_nodes V ids r) id
            ≡ (if str_mem id ids then none else get_node V r id))
        × Remaining IsApart r.edges (remove_nodes V ids r).edges
  unfolding get_node remove_nodes
  remove_nodes_lem r = (find_node-keep_nodes r.nodes, keep_edges-Remaining r.edges)
