-- ===== src/Graph/Links.antt =====
-- Link is idempotent on properties that are not nil.
use code_rag.Common.{
  String, true, Option, none, some, List, [], ◌∷◌, ◌≡◌, arith, str_eq_iff, Option-cases, inl, inr,
}
use code_rag.Graph.Types.{Values, done, Properties, Edge, MemoryGraph, same_properties}
use code_rag.Graph.Nodes.{counted}
use code_rag.Graph.Edges.{is_edge, find_edge, new_edge, put_edge, link}

module _ (V : Values) (kind from to : String) (properties : Option (Properties V)) where
  find_edge-put_edge :
      (e : Edge V) (edges : List (Edge V))
      → is_edge V kind from to properties e ≡ true
      → find_edge V kind from to properties edges ≡ none
      → find_edge V kind from to properties (put_edge V e edges) ≡ some e
  unfolding find_edge put_edge
  find_edge-put_edge e [] hit miss = ground arith
  find_edge-put_edge e (f ∷ edges) hit miss = ground (arith, find_edge-put_edge e edges)

  new_edge-is_edge :
      (fresh : String) (props : Properties V)
      → properties ≡ some props
      → same_properties V props (some props) ≡ true
      → is_edge V kind from to properties (new_edge V fresh kind from to properties) ≡ true
  unfolding is_edge new_edge
  new_edge-is_edge fresh props given same =
      rw given (ground (arith, same, str_eq_iff kind kind, str_eq_iff from from, str_eq_iff to to))

  find_edge-is_edge :
      (edges : List (Edge V)) (e : Edge V)
      → find_edge V kind from to properties edges ≡ some e
      → is_edge V kind from to properties e ≡ true
  unfolding find_edge
  find_edge-is_edge [] e h = cc
  find_edge-is_edge (f ∷ edges) e h = ground (arith, find_edge-is_edge edges e)

  -- Linking twice with the same properties, which are not nil, returns one edge, and the second call
  -- adds none: a map is taken to be deeply equal to itself.
  pub link_twice :
      (fresh fresh' : String) (r r' : MemoryGraph V) (e : Edge V) (props : Properties V)
      → properties ≡ some props
      → same_properties V props (some props) ≡ true
      → link V kind from to properties fresh r ≡ done (e, r')
      → link V kind from to properties fresh' r' ≡ done (e, counted V r')
  unfolding link counted
  link_twice fresh fresh' r r' e props given same linked =
      elim (Option-cases (find_edge V kind from to properties r.edges)) [
        | inl miss ↦ ground (
          arith,
          find_edge-put_edge (new_edge V fresh kind from to properties) r.edges,
          new_edge-is_edge fresh props given same,
        )
        | inr (f, hit) ↦ ground arith
      ]
