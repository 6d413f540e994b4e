-- ===== src/Graph/Search.antt =====
-- What a search finds after a node is written or nodes are removed.
use Prim.Native.Nat.{Ordering}
use Prim.Native.String.{compare}
use code_rag.Common.{
  String, Bool, true, false, none, some, List, [], ◌∷◌, ◌≡◌, refl, ◌∙◌, sym, ap, ◌&&◌, ◌||◌, arith,
  str_eq, str_eq_iff, str_mem, Bool-cases, inl, inr, All, All-map, if◌then◌else◌,
}
use code_rag.Graph.Types.{Values, Properties, Node, matches}
use code_rag.Graph.Nodes.{find_node, put_node, filter_nodes, insert_by_id, sort_by_id, keep_nodes}

module _ (V : Values) where
  -- No identifier twice.
  abbrev pub IsUnique : List (Node V) → Type 0
  IsUnique [] = Unit {0}
  IsUnique (n ∷ nodes) = (find_node V nodes n.id ≡ none) × IsUnique nodes

  find-put_node :
      (n : Node V) (nodes : List (Node V)) (id : String)
      → find_node V (put_node V n nodes) id
        ≡ (if str_eq n.id id then some n else find_node V nodes id)
  unfolding find_node put_node
  find-put_node n [] id = refl
  find-put_node n (m ∷ nodes) id = ground (
    arith,
    str_eq_iff m.id n.id,
    str_eq_iff m.id id,
    str_eq_iff n.id id,
    find-put_node n nodes id,
  )

  pub put_node-IsUnique :
      (n : Node V) (nodes : List (Node V)) → IsUnique nodes → IsUnique (put_node V n nodes)
  unfolding put_node find_node
  put_node-IsUnique n [] u = (refl, tt)
  put_node-IsUnique n (m ∷ nodes) u = elim (Bool-cases (str_eq m.id n.id)) [
    | inl same ↦ rw (same, ← (str_eq_iff m.id n.id).0 same) u
    | inr differs ↦ rw differs (
      ground (arith, find-put_node n nodes m.id, str_eq_iff m.id n.id, str_eq_iff n.id m.id),
      put_node-IsUnique n nodes u.1,
    )
  ]

  find-keep_nodes :
      (ids : List String) (nodes : List (Node V)) (id : String)
      → find_node V nodes id ≡ none
      → find_node V (keep_nodes V ids nodes) id ≡ none
  unfolding find_node keep_nodes
  find-keep_nodes ids [] id h = refl
  find-keep_nodes ids (n ∷ nodes) id h = ground (arith, find-keep_nodes ids nodes id)

  pub keep_nodes-IsUnique :
      (ids : List String) (nodes : List (Node V))
      → IsUnique nodes
      → IsUnique (keep_nodes V ids nodes)
  unfolding keep_nodes
  keep_nodes-IsUnique ids [] u = tt
  keep_nodes-IsUnique ids (n ∷ nodes) u = elim (Bool-cases (str_mem n.id ids)) [
    | inl gone ↦ rw gone (keep_nodes-IsUnique ids nodes u.1)
    | inr kept ↦ rw kept (find-keep_nodes ids nodes n.id u.0, keep_nodes-IsUnique ids nodes u.1)
  ]

  -- In a list without repetition each node is the one of its identifier.
  abbrev pub IsTheNode : List (Node V) → Node V → Type 0
  IsTheNode nodes n = find_node V nodes n.id ≡ some n

  pub nodes-IsTheNode : (nodes : List (Node V)) → IsUnique nodes → All (IsTheNode nodes) nodes
  unfolding find_node
  nodes-IsTheNode [] u = tt
  nodes-IsTheNode (n ∷ nodes) u = (
    ground (arith, str_eq_iff n.id n.id),
    All-map (IsTheNode nodes) (IsTheNode (n ∷ nodes))
        (λ m there. elim (Bool-cases (str_eq n.id m.id)) [
          | inl same ↦
              absurd (ground (arith, u.0, ap (find_node V nodes) ((str_eq_iff n.id m.id).0 same)))
          | inr differs ↦ rw differs there
        ])
        nodes (nodes-IsTheNode nodes u.1),
  )

  module _ (kind : String) (filters : Properties V) where
    abbrev pub hits : Node V → Bool
    hits n = (str_eq kind "" || str_eq n.kind kind) && matches V filters n.properties

    module _ (P : Node V → Type 0) where
      pub filter_nodes-All :
          (nodes : List (Node V))
          → All P nodes
          → All (λ n. P n × (hits n ≡ true)) (filter_nodes V kind filters nodes)
      unfolding filter_nodes
      filter_nodes-All [] h = tt
      filter_nodes-All (n ∷ nodes) h = elim (Bool-cases (hits n)) [
        | inl hit ↦ rw hit ((h.0, hit), filter_nodes-All nodes h.1)
        | inr miss ↦ rw miss (filter_nodes-All nodes h.1)
      ]

      pub insert_by_id-All :
          (n : Node V) (nodes : List (Node V)) → P n → All P nodes → All P (insert_by_id V n nodes)
      unfolding insert_by_id
      insert_by_id-All n [] p h = (p, tt)
      insert_by_id-All n (m ∷ nodes) p h =
          elim (compare m.id n.id)
            as (λ o.
              All P (elim o [ Ordering.lt ↦ m ∷ insert_by_id V n nodes | _ ↦ n ∷ m ∷ nodes ])) [
                | Ordering.lt ↦ (h.0, insert_by_id-All n nodes p h.1)
                | _ ↦ (p, h)
              ]

      pub sort_by_id-All : (nodes : List (Node V)) → All P nodes → All P (sort_by_id V nodes)
      unfolding sort_by_id
      sort_by_id-All [] h = tt
      sort_by_id-All (n ∷ nodes) h =
          insert_by_id-All n (sort_by_id V nodes) h.0 (sort_by_id-All nodes h.1)

    pub filter-put_old :
        (n old : Node V) (nodes : List (Node V))
        → old.id ≡ n.id
        → hits old ≡ true
        → hits n ≡ true
        → find_node V nodes n.id ≡ some old
        → filter_nodes V kind filters (put_node V n nodes)
          ≡ put_node V n (filter_nodes V kind filters nodes)
    unfolding filter_nodes put_node find_node
    filter-put_old n old [] same hit hit' there = cc
    filter-put_old n old (m ∷ nodes) same hit hit' there = elim (Bool-cases (str_eq m.id n.id)) [
      | inl here ↦
          let it : m ≡ old = ground arith in
          let hit_m : hits m ≡ true = rw it hit in rw (here, hit_m, hit', here) refl
      | inr later ↦
          let rest = filter-put_old n old nodes same hit hit' (ground arith) in
          elim (Bool-cases (hits m)) [
            | inl hit_m ↦ rw (later, hit_m, later) (ap (◌∷◌ m) rest)
            | inr miss ↦ rw (later, miss) rest
          ]
    ]

    pub filter-put_new :
        (n : Node V) (nodes : List (Node V))
        → hits n ≡ true
        → filter_nodes V kind filters nodes ≡ []
        → filter_nodes V kind filters (put_node V n nodes) ≡ n ∷ []
    unfolding filter_nodes put_node
    filter-put_new n [] hit h = rw hit refl
    filter-put_new n (m ∷ nodes) hit h = elim (Bool-cases (hits m)) [
      | inl hit_m ↦ absurd (ground arith)
      | inr miss ↦ elim (Bool-cases (str_eq m.id n.id)) [
        | inl here ↦ rw (here, hit) (ap (◌∷◌ n) (rw miss at h))
        | inr later ↦ rw (later, miss) (filter-put_new n nodes hit (rw miss at h))
      ]
    ]

  -- Sorting, when a node is replaced by one with its identifier.
  pub has_id : List (Node V) → String → Bool
  has_id [] id = false
  has_id (n ∷ nodes) id = str_eq n.id id || has_id nodes id

  has-insert_by_id :
      (m : Node V) (nodes : List (Node V)) (id : String)
      → has_id nodes id ≡ true
      → has_id (insert_by_id V m nodes) id ≡ true
  unfolding has_id insert_by_id
  has-insert_by_id m [] id h = cc
  has-insert_by_id m (n ∷ nodes) id h = ground (arith, has-insert_by_id m nodes id)

  has-insert_self :
      (m : Node V) (nodes : List (Node V)) → has_id (insert_by_id V m nodes) m.id ≡ true
  unfolding has_id insert_by_id
  has-insert_self m [] = ground (arith, str_eq_iff m.id m.id)
  has-insert_self m (n ∷ nodes) = ground (arith, str_eq_iff m.id m.id, has-insert_self m nodes)

  has-sort_by_id :
      (nodes : List (Node V)) (id : String)
      → has_id nodes id ≡ true
      → has_id (sort_by_id V nodes) id ≡ true
  unfolding has_id sort_by_id
  has-sort_by_id [] id h = h
  has-sort_by_id (n ∷ nodes) id h = elim (Bool-cases (str_eq n.id id)) [
    | inl same ↦ rw (← (str_eq_iff n.id id).0 same) (has-insert_self n (sort_by_id V nodes))
    | inr differs ↦
        has-insert_by_id n (sort_by_id V nodes) id (has-sort_by_id nodes id (rw differs at h))
  ]

  insert-put_node :
      (m n : Node V) (nodes : List (Node V))
      → str_eq m.id n.id ≡ false
      → has_id nodes n.id ≡ true
      → insert_by_id V m (put_node V n nodes) ≡ put_node V n (insert_by_id V m nodes)
  unfolding insert_by_id put_node has_id
  insert-put_node m n [] ne h = cc
  insert-put_node m n (s ∷ nodes) ne h = elim (Bool-cases (str_eq s.id n.id)) [
    | inl same ↦ let ids : s.id ≡ n.id = (str_eq_iff s.id n.id).0 same in ground arith
    | inr differs ↦ ground (arith, insert-put_node m n nodes)
  ]

  put-insert_by_id :
      (m n : Node V) (nodes : List (Node V))
      → m.id ≡ n.id
      → put_node V n (insert_by_id V m nodes) ≡ insert_by_id V n nodes
  unfolding insert_by_id put_node
  put-insert_by_id m n [] e = ground (arith, str_eq_iff m.id n.id)
  put-insert_by_id m n (s ∷ nodes) e =
      ground (arith, str_eq_iff m.id n.id, put-insert_by_id m n nodes e)

  pub sort-put_node :
      (n : Node V) (nodes : List (Node V))
      → has_id nodes n.id ≡ true
      → sort_by_id V (put_node V n nodes) ≡ put_node V n (sort_by_id V nodes)
  unfolding sort_by_id put_node has_id
  sort-put_node n [] h = cc
  sort-put_node n (m ∷ nodes) h = elim (Bool-cases (str_eq m.id n.id)) [
    | inl same ↦
        rw same (sym (put-insert_by_id m n (sort_by_id V nodes) ((str_eq_iff m.id n.id).0 same)))
    | inr differs ↦ rw differs (
        ap (insert_by_id V m) (sort-put_node n nodes (rw differs at h))
        ∙ insert-put_node m n (sort_by_id V nodes) differs
            (has-sort_by_id nodes n.id (rw differs at h)))
  ]

  pub has-filter_nodes :
      (kind : String) (filters : Properties V) (nodes : List (Node V)) (id : String) (n : Node V)
      → find_node V nodes id ≡ some n
      → hits kind filters n ≡ true
      → has_id (filter_nodes V kind filters nodes) id ≡ true
  unfolding find_node filter_nodes has_id
  has-filter_nodes kind filters [] id n there hit = cc
  has-filter_nodes kind filters (m ∷ nodes) id n there hit = elim (Bool-cases (str_eq m.id id)) [
    | inl same ↦
        let it : m ≡ n = ground arith in
        let hit_m : hits kind filters m ≡ true = rw it hit in rw (hit_m, same) refl
    | inr differs ↦ elim (Bool-cases (hits kind filters m)) [
      | inl hit_m ↦
          rw (hit_m, differs) (has-filter_nodes kind filters nodes id n (rw differs at there) hit)
      | inr miss ↦ rw miss (has-filter_nodes kind filters nodes id n (rw differs at there) hit)
    ]
  ]
