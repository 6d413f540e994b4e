-- ===== src/Graph/Upserts.antt =====
-- A node that UpsertNode returns is stored.
use code_rag.Common.{String, false, some, List, [], ◌∷◌, ◌≡◌, arith, str_eq, str_eq_iff}
use code_rag.Graph.Types.{Values, done, Properties, Node, MemoryGraph, next_generation}
use code_rag.Graph.Nodes.{find_node, get_node, put_node, upsert_one, upsert_node, counted}

module _ (V : Values) where
  open V use {as_text}

  find_node-put_node :
      (n : Node V) (nodes : List (Node V)) → find_node V (put_node V n nodes) n.id ≡ some n
  unfolding find_node put_node
  find_node-put_node n [] = ground (arith, str_eq_iff n.id n.id)
  find_node-put_node n (m ∷ nodes) =
      ground (arith, str_eq_iff n.id n.id, str_eq_iff m.id n.id, find_node-put_node n nodes)

  find_node-put_ne :
      (n : Node V) (id : String) (nodes : List (Node V))
      → str_eq n.id id ≡ false
      → find_node V (put_node V n nodes) id ≡ find_node V nodes id
  unfolding find_node put_node
  find_node-put_ne n id [] ne = ground arith
  find_node-put_ne n id (m ∷ nodes) ne = ground (
    arith,
    str_eq_iff m.id n.id,
    str_eq_iff m.id id,
    str_eq_iff n.id id,
    find_node-put_ne n id nodes,
  )

  -- What an upsert stores.
  upsert_node_cases :
      (kind : String) (identity properties : Properties V) (fresh now : String)
      (r r' : MemoryGraph V) (n : Node V)
      → upsert_node V kind identity properties fresh now r ≡ done (n, r')
      → (r'.nodes ≡ put_node V n r.nodes)
        × (r'.edges ≡ r.edges)
        × (r'.generation ≡ next_generation V r.generation)
  unfolding upsert_node upsert_one counted
  upsert_node_cases kind identity properties fresh now r r' n e = ground arith

  -- After a successful UpsertNode the node that it returned is found under its identifier, every other
  -- identifier has the node that it had, the edges stay, and the generation counts one more.
  pub get_node-upsert_node :
      (kind : String) (identity properties : Properties V) (fresh now : String)
      (r r' : MemoryGraph V) (n : Node V)
      → upsert_node V kind identity properties fresh now r ≡ done (n, r')
      → (get_node V r' n.id ≡ some n)
        × ((id : String) → str_eq n.id id ≡ false → get_node V r' id ≡ get_node V r id)
        × (r'.edges ≡ r.edges)
        × (r'.generation ≡ next_generation V r.generation)
  unfolding get_node
  get_node-upsert_node kind identity properties fresh now r r' n e =
      let (nodes, edges, generation) =
        upsert_node_cases kind identity properties fresh now r r' n e in
      (
        rw nodes (find_node-put_node n r.nodes),
        λ id ne. rw nodes (find_node-put_ne n id r.nodes ne),
        edges,
        generation,
      )
