-- ===== src/Graph/Found.antt =====
-- What a search finds after an upsert.
use code_rag.Common.{
  String, true, some, List, [], ◌∷◌, ◌≡◌, refl, ◌∙◌, sym, ap, subst, ◌||◌, ◌&&◌, arith, str_eq,
  str_eq_iff, List-cases, inl, inr, All,
}
use code_rag.Graph.Types.{
  Values, done, Properties, Node, MemoryGraph, property, set_default, put_properties,
}
use code_rag.Graph.Nodes.{
  find_nodes, find_node, filter_nodes, sort_by_id, insert_by_id, put_node, update_node,
  new_properties, upsert_one,
}
use code_rag.Graph.Repository.{IsIdentity}
use code_rag.Graph.Maps.{
  matches-IsIn, put_properties-IsIn, IsIn-put_properties, IsIn-set_default, matches-put_properties,
}
use code_rag.Graph.Search.{
  IsUnique, IsTheNode, hits, nodes-IsTheNode, has-filter_nodes, filter_nodes-All, sort_by_id-All,
  filter-put_old, filter-put_new, sort-put_node, put_node-IsUnique,
}

module _ (V : Values) where
  IsHit : String → Properties V → List (Node V) → Node V → Type 0
  IsHit kind filters nodes n = IsTheNode V nodes n × (hits V kind filters n ≡ true)

  -- What a search finds is in the repository, and matches.
  find_nodes-All :
      (kind : String) (filters : Properties V) (r : MemoryGraph V)
      → IsUnique V r.nodes
      → All (IsHit kind filters r.nodes) (find_nodes V kind filters r)
  unfolding find_nodes IsHit
  find_nodes-All kind filters r u =
      sort_by_id-All V kind filters (IsHit kind filters r.nodes)
        (filter_nodes V kind filters r.nodes)
        (filter_nodes-All V kind filters (IsTheNode V r.nodes) r.nodes
          (nodes-IsTheNode V r.nodes u))

  sort-eq-nil : (nodes : List (Node V)) → sort_by_id V nodes ≡ [] → nodes ≡ []
  unfolding sort_by_id insert_by_id
  sort-eq-nil [] e = refl
  sort-eq-nil (n ∷ nodes) e = absurd (ground (arith, List-cases (sort_by_id V nodes)))

  IsHit-parts :
      (kind : String) (filters : Properties V) (nodes : List (Node V)) (n : Node V)
      → IsHit kind filters nodes n
      → (find_node V nodes n.id ≡ some n) × (hits V kind filters n ≡ true)
  unfolding IsHit
  IsHit-parts kind filters nodes n h = h

  update_node-id :
      (properties : Properties V) (now : String) (m : Node V)
      → m.id ≡ (update_node V properties now m).id
  unfolding update_node
  update_node-id properties now m = refl

  put_node-head :
      (n m : Node V) (rest : List (Node V)) → m.id ≡ n.id → put_node V n (m ∷ rest) ≡ n ∷ rest
  unfolding put_node
  put_node-head n m rest same = ground (arith, str_eq_iff m.id n.id)

  sort-one : (n : Node V) → sort_by_id V (n ∷ []) ≡ n ∷ []
  unfolding sort_by_id insert_by_id
  sort-one n = refl

  hits-update_node :
      (kind : String) (identity properties : Properties V) (now : String) (m : Node V)
      → IsIdentity V identity properties
      → hits V kind identity (update_node V properties now m) ≡ hits V kind identity m
  unfolding update_node
  hits-update_node kind identity properties now m h =
      let props = put_properties V properties m.properties in
      ap (◌&&◌ (str_eq kind "" || str_eq m.kind kind)) (
        matches-put_properties V identity properties m.properties (V.text now)
          (property V props "updated_at") h)

  hits-new_properties :
      (kind id fresh now : String) (identity properties : Properties V)
      → IsIdentity V identity properties
      → hits V kind identity (record {
        id = id;
        kind = kind;
        properties = new_properties V identity properties fresh now;
      })
        ≡ true
  unfolding new_properties
  hits-new_properties kind id fresh now identity properties h =
      let i1 =
        IsIn-put_properties V identity properties (put_properties V identity []) h
          (put_properties-IsIn V identity properties [] h) in
      let p1 = put_properties V properties (put_properties V identity []) in
      let i2 = IsIn-set_default V identity p1 "id" (V.text fresh) i1 in
      let p2 = set_default V "id" (V.text fresh) p1 in
      let i3 = IsIn-set_default V identity p2 "created_at" (V.text now) i2 in
      let p3 = set_default V "created_at" (V.text now) p2 in
      let u = property V identity "project_id" in
      let i4 = IsIn-set_default V identity p3 "project_id" u i3 in
      ground
        (arith, str_eq_iff kind kind, matches-IsIn V identity (set_default V "project_id" u p3) i4)

  find_nodes-update :
      (kind : String) (identity properties : Properties V) (now : String) (r r' : MemoryGraph V)
      (m : Node V) (rest : List (Node V))
      → r'.nodes ≡ put_node V (update_node V properties now m) r.nodes
      → find_nodes V kind identity r ≡ m ∷ rest
      → IsIdentity V identity properties
      → IsUnique V r.nodes
      → find_nodes V kind identity r' ≡ update_node V properties now m ∷ rest
  unfolding find_nodes
  find_nodes-update kind identity properties now r r' m rest e found h u =
      let n = update_node V properties now m in
      let nodes = filter_nodes V kind identity r.nodes in
      let same : m.id ≡ n.id = update_node-id properties now m in
      let (there, hit) =
        IsHit-parts kind identity r.nodes m
          (subst (All (IsHit kind identity r.nodes)) found (find_nodes-All kind identity r u)).0 in
      let here : find_node V r.nodes n.id ≡ some m = ap (find_node V r.nodes) (sym same) ∙ there in
      let put =
        filter-put_old V kind identity n m r.nodes same hit
          (hits-update_node kind identity properties now m h ∙ hit) here in
      let has = has-filter_nodes V kind identity r.nodes n.id m here hit in
      rw e (
        ap (sort_by_id V) put
        ∙ sort-put_node V n nodes has
        ∙ ap (put_node V n) found
        ∙ put_node-head n m rest same)

  find_nodes-create :
      (kind : String) (identity : Properties V) (r r' : MemoryGraph V) (n : Node V)
      → r'.nodes ≡ put_node V n r.nodes
      → find_nodes V kind identity r ≡ []
      → hits V kind identity n ≡ true
      → find_nodes V kind identity r' ≡ n ∷ []
  unfolding find_nodes
  find_nodes-create kind identity r r' n e nothing hit = rw e (
      ap (sort_by_id V) (
        filter-put_new V kind identity n r.nodes hit
          (sort-eq-nil (filter_nodes V kind identity r.nodes) nothing))
      ∙ sort-one n)

  pub upsert_one-new :
      (kind : String) (identity properties : Properties V) (fresh now : String)
      (r r' : MemoryGraph V) (n : Node V)
      → upsert_one V kind identity properties fresh now r ≡ done (n, r')
      → find_nodes V kind identity r ≡ []
      → (n ≡ record {
        id = n.id;
        kind = kind;
        properties = new_properties V identity properties fresh now;
      })
        × (r'.nodes ≡ put_node V n r.nodes)
  unfolding upsert_one
  upsert_one-new kind identity properties fresh now r r' n e nothing = ground arith

  pub upsert_one-old :
      (kind : String) (identity properties : Properties V) (fresh now : String)
      (r r' : MemoryGraph V) (n m : Node V) (rest : List (Node V))
      → upsert_one V kind identity properties fresh now r ≡ done (n, r')
      → find_nodes V kind identity r ≡ m ∷ rest
      → (n ≡ update_node V properties now m) × (r'.nodes ≡ put_node V n r.nodes)
  unfolding upsert_one
  upsert_one-old kind identity properties fresh now r r' n m rest e found = ground arith

  -- What an upsert does to the nodes: it replaces the first that the search found, or adds one.
  pub find_nodes-upsert_one :
      (kind : String) (identity properties : Properties V) (fresh now : String)
      (r r' : MemoryGraph V) (n : Node V)
      → upsert_one V kind identity properties fresh now r ≡ done (n, r')
      → IsIdentity V identity properties
      → IsUnique V r.nodes
      → (rest : List (Node V)) × (find_nodes V kind identity r' ≡ n ∷ rest)
  find_nodes-upsert_one kind identity properties fresh now r r' n e h u =
      elim (List-cases (find_nodes V kind identity r)) [
        | inl nothing ↦
            let created = upsert_one-new kind identity properties fresh now r r' n e nothing in
            (
              [],
              find_nodes-create kind identity r r' n created.1 nothing
                  (rw created.0 (hits-new_properties kind n.id fresh now identity properties h)),
            )
        | inr (m, rest, found) ↦
            let stored = upsert_one-old kind identity properties fresh now r r' n m rest e found in
            (
              rest,
              rw stored.0 (
                  find_nodes-update kind identity properties now r r' m rest
                    (stored.1 ∙ ap (λ x. put_node V x r.nodes) stored.0) found h u),
            )
      ]

  pub IsUnique-upsert_one :
      (kind : String) (identity properties : Properties V) (fresh now : String)
      (r r' : MemoryGraph V) (n : Node V)
      → upsert_one V kind identity properties fresh now r ≡ done (n, r')
      → IsUnique V r.nodes
      → IsUnique V r'.nodes
  IsUnique-upsert_one kind identity properties fresh now r r' n e u =
      let stored : r'.nodes ≡ put_node V n r.nodes =
        elim (List-cases (find_nodes V kind identity r)) [
          | inl nothing ↦ (upsert_one-new kind identity properties fresh now r r' n e nothing).1
          | inr (m, rest, found) ↦
              (upsert_one-old kind identity properties fresh now r r' n m rest e found).1
        ] in
      rw stored (put_node-IsUnique V n r.nodes u)
