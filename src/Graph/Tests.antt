-- ===== src/Graph/Tests.antt =====
-- Runs of the repository in memory.
use code_rag.Common.{
  String, false, none, some, [], ◌∷◌, ◌≡◌, refl, str_eq, str_mem, Remaining, if◌then◌else◌,
}
use code_rag.Graph.Types.{
  done, Properties, Node, Edge, MemoryGraph, same_properties, covers, find_property, validate_kind,
  next_generation, property, set_property, set_default, put_properties,
}
use code_rag.Graph.Nodes.{
  counted, get_node, remove_nodes, keep_edges, upsert_node, upsert_one, find_nodes, filter_nodes,
  sort_by_id, put_node, new_properties,
}
use code_rag.Graph.Edges.{
  link, new_edge, put_edge, find_edge, is_edge, link_batch, link_each, same_edges, edge_count,
}
use code_rag.Graph.Upserts.{get_node-upsert_node}
use code_rag.Graph.Any.{nil, str, same_any, texts}
use code_rag.Graph.Links.{link_twice}
use code_rag.Graph.Removal.{IsApart, remove_nodes_lem}

abbrev empty : MemoryGraph texts
empty = record { nodes = []; edges = []; generation = 0 }

abbrev weight : Properties texts
weight = ("weight", str "1") ∷ []

abbrev edge : Edge texts
edge = record { id = "e1"; kind = "CALLS"; from_id = "a"; to_id = "b"; properties = weight }

abbrev linked : MemoryGraph texts
linked = record { nodes = []; edges = edge ∷ []; generation = 1 }

link_runs : link texts "CALLS" "a" "b" (some weight) "e1" empty ≡ done (edge, linked)
unfolding link validate_kind find_edge put_edge counted new_edge next_generation
link_runs = refl

link_twice_example :
    link texts "CALLS" "a" "b" (some weight) "e2" linked ≡ done (edge, counted texts linked)
unfolding same_properties covers find_property same_any
link_twice_example =
    link_twice texts "CALLS" "a" "b" (some weight) "e1" "e2" empty linked edge weight refl refl
      link_runs

remove_nodes_lem_example :
    ((id : String)
      → get_node texts (remove_nodes texts ("a" ∷ []) linked) id
        ≡ (if str_mem id ("a" ∷ []) then none else get_node texts linked id))
    × Remaining (IsApart texts ("a" ∷ [])) linked.edges (remove_nodes texts ("a" ∷ []) linked).edges
remove_nodes_lem_example = remove_nodes_lem texts ("a" ∷ []) linked

removal_runs : (remove_nodes texts ("a" ∷ []) linked).edges ≡ []
unfolding remove_nodes keep_edges str_mem
removal_runs = refl

-- In a batch an edge that is stored is stored again.
batch_doubles :
    edge_count texts
      (link_batch texts
        ((record { kind = "CALLS"; from_id = "a"; to_id = "b"; properties = some weight }, "e2")
          ∷ [])
        linked).1
    ≡ 2
unfolding edge_count link_batch link_each same_edges is_edge new_edge put_edge counted validate_kind
    same_properties covers find_property same_any
batch_doubles = refl

abbrev identity : Properties texts
identity = ("name", str "main") ∷ []

abbrev stored : Node texts
stored = record {
  id = "n1";
  kind = "Function";
  properties =
      ("name", str "main")
      ∷ ("line", str "3")
      ∷ ("id", str "n1")
      ∷ ("created_at", str "now")
      ∷ ("project_id", nil)
      ∷ [];
}

abbrev one_node : MemoryGraph texts
one_node = record { nodes = stored ∷ []; edges = []; generation = 1 }

upsert_runs :
    upsert_node texts "Function" identity (("line", str "3") ∷ []) "n1" "now" empty
    ≡ done (stored, one_node)
unfolding upsert_node upsert_one validate_kind counted next_generation find_nodes filter_nodes
    sort_by_id put_node new_properties set_default set_property put_properties property
    find_property
upsert_runs = refl

get_node-upsert_node_example :
    (get_node texts one_node "n1" ≡ some stored)
    × ((id : String)
        → str_eq "n1" id ≡ false
        → get_node texts one_node id ≡ get_node texts empty id)
    × (one_node.edges ≡ [])
    × (1 ≡ next_generation texts 0)
get_node-upsert_node_example =
    get_node-upsert_node texts "Function" identity (("line", str "3") ∷ []) "n1" "now" empty
      one_node stored upsert_runs
