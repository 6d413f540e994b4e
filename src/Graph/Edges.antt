-- ===== src/Graph/Edges.antt =====
-- The operations of MemoryGraphRepository on edges. Go meets the edges of a map in any order; the
-- model meets them in the order of the list.
use code_rag.Common.{
  ℕ, suc, String, Bool, Option, none, some, List, [], ◌∷◌, ◌++◌, ◌||◌, ◌&&◌, str_eq, str_mem,
  length, if◌then◌else◌,
}
use code_rag.Graph.Types.{
  Values, Outcome, done, invalid_kind, validate_kind, Properties, Node, Edge, MemoryGraph,
  same_properties,
}
use code_rag.Graph.Nodes.{find_node, counted}

pub data Direction : Type 0 where
  dir_out dir_in dir_both : Direction

module _ (V : Values) where
  unfoldable pub is_edge : String → String → String → Option (Properties V) → Edge V → Bool
  is_edge kind from to properties e =
      str_eq e.kind kind
      && str_eq e.from_id from
      && str_eq e.to_id to
      && same_properties V e.properties properties

  unfoldable pub find_edge :
      String → String → String → Option (Properties V) → List (Edge V) → Option (Edge V)
  find_edge kind from to properties [] = none
  find_edge kind from to properties (e ∷ edges) =
      if is_edge kind from to properties e then some e else find_edge kind from to properties edges

  -- models.NewEdge: a nil map becomes an empty one
  unfoldable pub new_edge : String → String → String → String → Option (Properties V) → Edge V
  new_edge id kind from to properties = record {
    id = id;
    kind = kind;
    from_id = from;
    to_id = to;
    properties = elim properties [ none ↦ [] | some props ↦ props ];
  }

  -- r.edges[edge.ID] = edge
  unfoldable pub put_edge : Edge V → List (Edge V) → List (Edge V)
  put_edge edge [] = edge ∷ []
  put_edge edge (e ∷ edges) = if str_eq e.id edge.id then edge ∷ edges else e ∷ put_edge edge edges

  unfoldable pub link :
      String
      → String
      → String
      → Option (Properties V)
      → String
      → MemoryGraph V
      → Outcome (Edge V × MemoryGraph V)
  link kind from to properties fresh r =
      let edge = new_edge fresh kind from to properties in
      let r' = counted V r in
      if validate_kind kind
      then elim (find_edge kind from to properties r.edges) [
        | some e ↦ done (e, r')
        | none ↦ done (edge, record r' { edges = put_edge edge r.edges })
      ]
      else invalid_kind

  -- an edge with the node at its other end, where that node is stored
  unfoldable pub end_node : Edge V → String → List (Node V) → List (Edge V × Node V)
  end_node e id nodes = elim (find_node V nodes id) [ none ↦ [] | some n ↦ (e, n) ∷ [] ]

  unfoldable pub neighbors_of : String → Direction → List (Node V) → Edge V → List (Edge V × Node V)
  neighbors_of id direction nodes e =
      let out = if str_eq e.from_id id then end_node e e.to_id nodes else [] in
      let into = if str_eq e.to_id id then end_node e e.from_id nodes else [] in
      elim direction [ dir_out ↦ out | dir_in ↦ into | dir_both ↦ out ++ into ]

  unfoldable pub neighbors_from :
      String → String → Direction → List (Node V) → List (Edge V) → List (Edge V × Node V)
  neighbors_from id kind direction nodes [] = []
  neighbors_from id kind direction nodes (e ∷ edges) =
      let rest = neighbors_from id kind direction nodes edges in
      if str_eq kind "" || str_eq e.kind kind
      then neighbors_of id direction nodes e ++ rest
      else rest

  unfoldable pub neighbors : String → String → Direction → MemoryGraph V → List (Edge V × Node V)
  neighbors id kind direction r = neighbors_from id kind direction r.nodes r.edges

  unfoldable pub edge_refs : String → List (Edge V) → List (String × String)
  edge_refs kind [] = []
  edge_refs kind (e ∷ edges) =
      let rest = edge_refs kind edges in
      if str_eq e.kind kind then (e.from_id, e.to_id) ∷ rest else rest

  unfoldable pub edges_of_kind : String → MemoryGraph V → List (String × String)
  edges_of_kind kind r = edge_refs kind r.edges

  -- counts[kind]++ for each kind of a list
  unfoldable pub count_one : String → List (String × ℕ) → List (String × ℕ)
  count_one kind [] = (kind, 1) ∷ []
  count_one kind ((k, n) ∷ counts) =
      if str_eq k kind then (k, suc n) ∷ counts else (k, n) ∷ count_one kind counts

  unfoldable pub count_nodes : List (String × ℕ) → List (Node V) → List (String × ℕ)
  count_nodes counts [] = counts
  count_nodes counts (n ∷ nodes) = count_nodes (count_one n.kind counts) nodes

  unfoldable pub count_edges : List (String × ℕ) → List (Edge V) → List (String × ℕ)
  count_edges counts [] = counts
  count_edges counts (e ∷ edges) = count_edges (count_one e.kind counts) edges

  unfoldable pub kind_counts : MemoryGraph V → List (String × ℕ) × List (String × ℕ)
  kind_counts r = (count_nodes [] r.nodes, count_edges [] r.edges)

  unfoldable pub drop_edges : List String → List (Edge V) → List (Edge V)
  drop_edges ids [] = []
  drop_edges ids (e ∷ edges) =
      let rest = drop_edges ids edges in if str_mem e.id ids then rest else e ∷ rest

  unfoldable pub remove_edges : List String → MemoryGraph V → MemoryGraph V
  remove_edges ids r = record (counted V r) { edges = drop_edges ids r.edges }

  unfoldable pub edge_count : MemoryGraph V → ℕ
  edge_count r = length r.edges

  -- the inner loop of LinkBatch: the edges that it appends to the results
  unfoldable pub same_edges :
      String → String → String → Option (Properties V) → List (Edge V) → List (Edge V)
  same_edges kind from to properties [] = []
  same_edges kind from to properties (e ∷ edges) =
      let rest = same_edges kind from to properties edges in
      if is_edge kind from to properties e then e ∷ rest else rest

  pub record EdgeBatchItem : Type 0 where
    pub kind : String
    pub from_id : String
    pub to_id : String
    pub properties : Option (Properties V)

  -- the loop of LinkBatch; `continue` in the inner loop only goes on to the next edge, so the new edge
  -- is added whether or not one was found
  unfoldable pub link_each :
      List (EdgeBatchItem × String) → List (Edge V) → List (Edge V) → List (Edge V) × List (Edge V)
  link_each [] results edges = (results, edges)
  link_each ((item, fresh) ∷ items) results edges =
      let found = same_edges item.kind item.from_id item.to_id item.properties edges in
      let edge = new_edge fresh item.kind item.from_id item.to_id item.properties in
      let skipped = link_each items results edges in
      let added = link_each items (results ++ found ++ edge ∷ []) (put_edge edge edges) in
      if validate_kind item.kind then added else skipped

  unfoldable pub link_batch :
      List (EdgeBatchItem × String) → MemoryGraph V → List (Edge V) × MemoryGraph V
  link_batch items r =
      let (results, edges) = link_each items [] r.edges in
      (results, record (counted V r) { edges = edges })
