-- ===== src/Graph/Kept.antt =====
-- What an upserted node holds, and what a search finds after a removal.
use Prim.Native.Nat.{Ordering}
use Prim.Native.String.{compare}
use code_rag.Common.{
  String, true, false, List, [], ◌∷◌, ◌≡◌, refl, ◌∙◌, ap, arith, str_eq, str_eq_iff, str_mem,
  Bool-cases, List-cases, inl, inr, All,
}
use code_rag.Graph.Types.{
  Values, done, Properties, Node, MemoryGraph, property, set_property, set_default, put_properties,
}
use code_rag.Graph.Nodes.{
  find_nodes, filter_nodes, sort_by_id, insert_by_id, keep_nodes, remove_nodes, update_node,
  new_properties, upsert_one,
}
use code_rag.Graph.Repository.{last_value, is_reserved}
use code_rag.Graph.Maps.{property-set_property, property-set_default, property-put_properties}
use code_rag.Graph.Search.{hits}
use code_rag.Graph.Found.{upsert_one-new, upsert_one-old}

module _ (V : Values) where
  property-update_node :
      (properties : Properties V) (now key : String) (m : Node V)
      → is_reserved V key ≡ false
      → property V (update_node V properties now m).properties key
        ≡ last_value V properties key (property V m.properties key)
  unfolding update_node is_reserved str_mem
  property-update_node properties now key m free =
      let props = put_properties V properties m.properties in
      let once = set_property V "updated_at" (property V props "updated_at") props in
      ground (
        arith,
        str_eq_iff "updated_at" key,
        str_eq_iff key "updated_at",
        property-set_property V "updated_at" key (V.text now) once,
        property-set_property V "updated_at" key (property V props "updated_at") props,
        property-put_properties V properties m.properties key,
      )

  property-new_properties :
      (identity properties : Properties V) (fresh now key : String)
      → is_reserved V key ≡ false
      → property V (new_properties V identity properties fresh now) key
        ≡ last_value V properties key (property V (put_properties V identity []) key)
  unfolding new_properties is_reserved str_mem
  property-new_properties identity properties fresh now key free =
      let p1 = put_properties V properties (put_properties V identity []) in
      let p2 = set_default V "id" (V.text fresh) p1 in
      let p3 = set_default V "created_at" (V.text now) p2 in
      let u = property V identity "project_id" in
      let id_ne : str_eq "id" key ≡ false =
        ground (arith, str_eq_iff "id" key, str_eq_iff key "id") in
      let at_ne : str_eq "created_at" key ≡ false =
        ground (arith, str_eq_iff "created_at" key, str_eq_iff key "created_at") in
      let project_ne : str_eq "project_id" key ≡ false =
        ground (arith, str_eq_iff "project_id" key, str_eq_iff key "project_id") in
      property-set_default V "project_id" key u p3 project_ne
      ∙ property-set_default V "created_at" key (V.text now) p2 at_ne
      ∙ property-set_default V "id" key (V.text fresh) p1 id_ne
      ∙ property-put_properties V properties (put_properties V identity []) key

  pub property-upsert_one :
      (kind : String) (identity properties : Properties V) (fresh now : String)
      (r r' : MemoryGraph V) (n : Node V)
      → upsert_one V kind identity properties fresh now r ≡ done (n, r')
      → (key : String) → is_reserved V key ≡ false
      → (old : V.Value) × (property V n.properties key ≡ last_value V properties key old)
  property-upsert_one kind identity properties fresh now r r' n e key free =
      elim (List-cases (find_nodes V kind identity r)) [
        | inl nothing ↦ (
          property V (put_properties V identity []) key,
          rw (upsert_one-new V kind identity properties fresh now r r' n e nothing).0
              (property-new_properties identity properties fresh now key free),
        )
        | inr (m, rest, found) ↦ (
          property V m.properties key,
          rw (upsert_one-old V kind identity properties fresh now r r' n m rest e found).0
              (property-update_node properties now key m free),
        )
      ]

  -- Of what is removed a search finds nothing.
  filter-keep_nodes :
      (kind : String) (filters : Properties V) (ids : List String) (nodes : List (Node V))
      → All (λ n. str_mem n.id ids ≡ true) (filter_nodes V kind filters nodes)
      → filter_nodes V kind filters (keep_nodes V ids nodes) ≡ []
  unfolding filter_nodes keep_nodes
  filter-keep_nodes kind filters ids [] h = refl
  filter-keep_nodes kind filters ids (n ∷ nodes) h = elim (Bool-cases (hits V kind filters n)) [
    | inl hit ↦
        let (gone, rest) = rw hit at h in rw gone (filter-keep_nodes kind filters ids nodes rest)
    | inr miss ↦
        let rest = filter-keep_nodes kind filters ids nodes (rw miss at h) in
        elim (Bool-cases (str_mem n.id ids)) [
          | inl gone ↦ rw gone rest
          | inr kept ↦ rw (kept, miss) rest
        ]
  ]

  module _ (P : Node V → Type 0) where
    All-insert_by_id :
        (n : Node V) (nodes : List (Node V)) → All P (insert_by_id V n nodes) → P n × All P nodes
    unfolding insert_by_id
    All-insert_by_id n [] h = h
    All-insert_by_id n (m ∷ nodes) h =
        elim (compare m.id n.id)
            as (λ o.
              All P (elim o [ Ordering.lt ↦ m ∷ insert_by_id V n nodes | _ ↦ n ∷ m ∷ nodes ])
              → P n × All P (m ∷ nodes)) [
                | Ordering.lt ↦
                    λ k. let (p, rest) = All-insert_by_id n nodes k.1 in (p, (k.0, rest))
                | _ ↦ λ k. (k.0, k.1)
              ]
          h

    All-sort_by_id : (nodes : List (Node V)) → All P (sort_by_id V nodes) → All P nodes
    unfolding sort_by_id
    All-sort_by_id [] h = tt
    All-sort_by_id (n ∷ nodes) h =
        let (p, rest) = All-insert_by_id n (sort_by_id V nodes) h in (p, All-sort_by_id nodes rest)

  pub find_nodes-remove_nodes :
      (ids : List String) (r : MemoryGraph V) (kind : String) (filters : Properties V)
      → All (λ n. str_mem n.id ids ≡ true) (find_nodes V kind filters r)
      → find_nodes V kind filters (remove_nodes V ids r) ≡ []
  unfolding find_nodes remove_nodes sort_by_id
  find_nodes-remove_nodes ids r kind filters h = ap (sort_by_id V) (
      filter-keep_nodes kind filters ids r.nodes
        (All-sort_by_id (λ n. str_mem n.id ids ≡ true) (filter_nodes V kind filters r.nodes) h))
