-- ===== src/Graph/Memory.antt =====
-- The repository in memory as an implementation of GraphRepository. Each call draws the next identifier
-- and the next time from two sequences.
use code_rag.Common.{
  ℕ, ◌+◌, String, true, Option, none, some, List, [], ◌≡◌, refl, ◌∙◌, sym, ap, subst, arith,
  str_mem, All, ◌↔◌,
}
use code_rag.Graph.Types.{Values, done, invalid_kind, panics, Properties, Node, Edge, MemoryGraph}
use code_rag.Graph.Nodes.{get_node, find_nodes, remove_nodes, upsert_one, upsert_node, counted}
use code_rag.Graph.Edges.{link, neighbors}
use code_rag.Graph.Repository.{GraphRepository, RepositoryLaws}
use code_rag.Graph.Search.{IsUnique, keep_nodes-IsUnique}
use code_rag.Graph.Found.{find_nodes-upsert_one, IsUnique-upsert_one}
use code_rag.Graph.Kept.{property-upsert_one, find_nodes-remove_nodes}

module _ (V : Values) where
  module _ (fresh now : ℕ → String) where
    abbrev pub World : Type 0
    World = MemoryGraph V × ℕ

    -- An invalid kind is refused before anything is written. A panic at an identifier that is no text
    -- leaves through the deferred unlock: no node is returned, and the generation was counted already.
    -- A failed call of a client ends it the same way in both cases; none passes such an identifier.
    unfoldable pub memory_upsert :
        String → Properties V → Properties V → World → Option (Node V) × World
    memory_upsert kind identity properties (r, k) =
        elim (upsert_node V kind identity properties (fresh k) (now k) r) [
          | done (n, r') ↦ (some n, (r', k + 1))
          | invalid_kind ↦ (none, (r, k + 1))
          | panics ↦ (none, (counted V r, k + 1))
        ]

    unfoldable pub memory_link :
        String → String → String → Option (Properties V) → World → Option (Edge V) × World
    memory_link kind from to properties (r, k) = elim (link V kind from to properties (fresh k) r) [
      | done (e, r') ↦ (some e, (r', k + 1))
      | invalid_kind ↦ (none, (r, k + 1))
      | panics ↦ (none, (r, k + 1))
    ]

    -- What the clients call, carried out by the operations in memory.
    abbrev pub memory_repository : GraphRepository V
    memory_repository = record {
      World = World;
      upsert_node = memory_upsert;
      get_node = λ w id. get_node V w.0 id;
      find_nodes = λ kind filters w. some (find_nodes V kind filters w.0);
      link = memory_link;
      neighbors = λ id kind direction w. some (neighbors V id kind direction w.0);
      remove_nodes = λ ids w. (true, (remove_nodes V ids w.0, w.1));
    }

    memory_upsert_cases :
        (kind : String) (identity properties : Properties V) (w w' : World) (n : Node V)
        → memory_upsert kind identity properties w ≡ (some n, w')
        → upsert_one V kind identity properties (fresh w.1) (now w.1) (counted V w.0)
          ≡ done (n, w'.0)
    unfolding memory_upsert upsert_node
    memory_upsert_cases kind identity properties w w' n e = ground arith

    memory_link-find :
        (kind from to : String) (properties : Option (Properties V)) (w : World) (other : String)
        (filters : Properties V)
        → find_nodes V other filters (memory_link kind from to properties w).1.0
          ≡ find_nodes V other filters w.0
    unfolding memory_link link find_nodes counted
    memory_link-find kind from to properties w other filters = ground arith

    abbrev pub IsUniqueWorld : World → Type 0
    IsUniqueWorld w = IsUnique V w.0.nodes

    unchanged :
        (kind : String) (filters : Properties V) (r : MemoryGraph V)
        → find_nodes V kind filters (counted V r) ≡ find_nodes V kind filters r
    unfolding counted find_nodes
    unchanged kind filters r = refl

    counted-IsUnique : (r : MemoryGraph V) → IsUnique V r.nodes → IsUnique V (counted V r).nodes
    unfolding counted
    counted-IsUnique r u = u

    memory_link-nodes :
        (kind from to : String) (properties : Option (Properties V)) (w : World)
        → w.0.nodes ≡ (memory_link kind from to properties w).1.0.nodes
    unfolding memory_link link counted
    memory_link-nodes kind from to properties w = ground arith

    memory_link-IsUnique :
        (kind from to : String) (properties : Option (Properties V)) (w : World)
        → IsUniqueWorld w
        → IsUniqueWorld (memory_link kind from to properties w).1
    unfolding memory_link link counted
    memory_link-IsUnique kind from to properties w u =
        subst (IsUnique V) (memory_link-nodes kind from to properties w) u

    remove_nodes-IsUnique :
        (ids : List String) (r : MemoryGraph V)
        → IsUnique V r.nodes
        → IsUnique V (remove_nodes V ids r).nodes
    unfolding remove_nodes
    remove_nodes-IsUnique ids r u = keep_nodes-IsUnique V ids r.nodes u

    unfoldable memory_laws : RepositoryLaws V memory_repository
    memory_laws = record {
      Good = IsUniqueWorld;
      upsert-Good = λ kind identity properties w w' n e u.
          IsUnique-upsert_one V kind identity properties (fresh w.1) (now w.1) (counted V w.0) w'.0
            n (memory_upsert_cases kind identity properties w w' n e) (counted-IsUnique w.0 u);
      remove-Good =
          λ ids w w' e u. subst IsUniqueWorld (ap (λ p. p.1) e) (remove_nodes-IsUnique ids w.0 u);
      upsert-find = λ kind identity properties w w' n e h u.
          let (rest, found) =
            find_nodes-upsert_one V kind identity properties (fresh w.1) (now w.1) (counted V w.0)
              w'.0 n (memory_upsert_cases kind identity properties w w' n e) h
              (counted-IsUnique w.0 u) in
          (rest, ap some found);
      upsert-property = λ kind identity properties w w' n e key free apart.
          property-upsert_one V kind identity properties (fresh w.1) (now w.1) (counted V w.0) w'.0
            n (memory_upsert_cases kind identity properties w w' n e) key free;
      remove-find = λ ids w w' kind filters nodes e found h. ap some (
          ap (λ p. find_nodes V kind filters p.1.0) (sym e)
          ∙ find_nodes-remove_nodes V ids w.0 kind filters (
              subst (All (λ n. str_mem n.id ids ≡ true))
                (sym (ap (λ o. elim o [ none ↦ [] | some x ↦ x ]) found)) h));
      link-Good = λ kind from to properties w u. memory_link-IsUnique kind from to properties w u;
      link-find = λ kind from to properties w other filters.
          ap some (memory_link-find kind from to properties w other filters);
    }

    pub memory_repository-RepositoryLaws :
        (W : RepositoryLaws V memory_repository) × ((w : World) → W.Good w ↔ IsUnique V w.0.nodes)
    unfolding memory_laws
    memory_repository-RepositoryLaws = (memory_laws, λ w. (λ u. u, λ u. u))
