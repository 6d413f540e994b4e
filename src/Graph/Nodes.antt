-- ===== src/Graph/Nodes.antt =====
-- The operations of MemoryGraphRepository on nodes.
use Prim.Native.Nat.{Ordering}
use Prim.Native.String.{compare}
use code_rag.Common.{
  ℕ, String, Option, none, some, List, [], ◌∷◌, ◌++◌, ◌||◌, ◌&&◌, str_eq, str_mem, length,
  if◌then◌else◌,
}
use code_rag.Graph.Types.{
  Values, Outcome, done, invalid_kind, panics, validate_kind, Properties, Node, Edge, MemoryGraph,
  property, set_property, put_properties, set_default, matches, next_generation,
}

module _ (V : Values) where
  open V use {Value, text, as_text}

  -- r.nodes[id]
  unfoldable pub find_node : List (Node V) → String → Option (Node V)
  find_node [] id = none
  find_node (n ∷ nodes) id = if str_eq n.id id then some n else find_node nodes id

  unfoldable pub get_node : MemoryGraph V → String → Option (Node V)
  get_node r id = find_node r.nodes id

  -- r.nodes[node.ID] = node
  unfoldable pub put_node : Node V → List (Node V) → List (Node V)
  put_node node [] = node ∷ []
  put_node node (n ∷ nodes) = if str_eq n.id node.id then node ∷ nodes else n ∷ put_node node nodes

  -- the nodes of the kind, or of every kind for "", that match
  unfoldable pub filter_nodes : String → Properties V → List (Node V) → List (Node V)
  filter_nodes kind filters [] = []
  filter_nodes kind filters (n ∷ nodes) =
      let rest = filter_nodes kind filters nodes in
      if (str_eq kind "" || str_eq n.kind kind) && matches V filters n.properties
      then n ∷ rest
      else rest

  -- sort.Slice by ID
  unfoldable pub insert_by_id : Node V → List (Node V) → List (Node V)
  insert_by_id node [] = node ∷ []
  insert_by_id node (n ∷ nodes) = elim (compare n.id node.id) [
    | Ordering.lt ↦ n ∷ insert_by_id node nodes
    | _ ↦ node ∷ n ∷ nodes
  ]

  unfoldable pub sort_by_id : List (Node V) → List (Node V)
  sort_by_id [] = []
  sort_by_id (n ∷ nodes) = insert_by_id n (sort_by_id nodes)

  unfoldable pub find_nodes : String → Properties V → MemoryGraph V → List (Node V)
  find_nodes kind filters r = sort_by_id (filter_nodes kind filters r.nodes)

  -- the branch for a node that exists; SetProperty sets "updated_at" to the time in any case
  unfoldable pub update_node : Properties V → String → Node V → Node V
  update_node properties now node =
      let props = put_properties V properties node.properties in
      record node {
        properties =
            set_property V "updated_at" (text now)
              (set_property V "updated_at" (property V props "updated_at") props);
      }

  -- the properties of a new node
  unfoldable pub new_properties : Properties V → Properties V → String → String → Properties V
  new_properties identity properties fresh now =
      set_default V "project_id" (property V identity "project_id") (
        set_default V "created_at" (text now) (
          set_default V "id" (text fresh)
            (put_properties V properties (put_properties V identity []))))

  -- one round of UpsertNodesBatch, and UpsertNode without its count
  unfoldable pub upsert_one :
      String
      → Properties V
      → Properties V
      → String
      → String
      → MemoryGraph V
      → Outcome (Node V × MemoryGraph V)
  upsert_one kind identity properties fresh now r = elim (find_nodes kind identity r) [
    | n ∷ _ ↦
        let node = update_node properties now n in
        done (node, record r { nodes = put_node node r.nodes })
    | [] ↦
        let props = new_properties identity properties fresh now in
        elim (as_text (property V props "id")) [
          | none ↦ panics
          | some id ↦
              let node : Node V = record { id = id; kind = kind; properties = props } in
              done (node, record r { nodes = put_node node r.nodes })
        ]
  ]

  unfoldable pub counted : MemoryGraph V → MemoryGraph V
  counted r = record r { generation = next_generation V r.generation }

  unfoldable pub upsert_node :
      String
      → Properties V
      → Properties V
      → String
      → String
      → MemoryGraph V
      → Outcome (Node V × MemoryGraph V)
  upsert_node kind identity properties fresh now r =
      if validate_kind kind
      then upsert_one kind identity properties fresh now (counted r)
      else invalid_kind

  -- the loop of UpsertNodesBatch; each item comes with the identifier that it takes if it is new
  unfoldable pub upsert_each :
      String
      → List (Properties V × Properties V × String)
      → String
      → List (Node V)
      → MemoryGraph V
      → Outcome (List (Node V) × MemoryGraph V)
  upsert_each kind [] now results r = done (results, r)
  upsert_each kind ((identity, properties, fresh) ∷ items) now results r =
      elim (upsert_one kind identity properties fresh now r) [
        | done (node, r') ↦ upsert_each kind items now (results ++ node ∷ []) r'
        | invalid_kind ↦ invalid_kind
        | panics ↦ panics
      ]

  unfoldable pub upsert_nodes_batch :
      String
      → List (Properties V × Properties V × String)
      → String
      → MemoryGraph V
      → Outcome (List (Node V) × MemoryGraph V)
  upsert_nodes_batch kind items now r =
      if validate_kind kind then upsert_each kind items now [] (counted r) else invalid_kind

  unfoldable pub keep_nodes : List String → List (Node V) → List (Node V)
  keep_nodes ids [] = []
  keep_nodes ids (n ∷ nodes) =
      let rest = keep_nodes ids nodes in if str_mem n.id ids then rest else n ∷ rest

  unfoldable pub keep_edges : List String → List (Edge V) → List (Edge V)
  keep_edges ids [] = []
  keep_edges ids (e ∷ edges) =
      let rest = keep_edges ids edges in
      if str_mem e.from_id ids || str_mem e.to_id ids then rest else e ∷ rest

  unfoldable pub remove_nodes : List String → MemoryGraph V → MemoryGraph V
  remove_nodes ids r = record (counted r) {
    nodes = keep_nodes ids r.nodes;
    edges = keep_edges ids r.edges;
  }

  unfoldable pub node_count : MemoryGraph V → ℕ
  node_count r = length r.nodes
