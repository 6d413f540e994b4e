-- ===== src/Ctxstore/Store.antt =====
-- Store (internal/ctxstore/store.go) over a graph repository, but for Add and Search, which go through the
-- memory service.
use code_rag.Common.{
  ℕ, ℤ, pos, String, Bool, true, false, Option, none, some, List, [], ◌∷◌, ◌&&◌, not, str_eq,
  str_mem, length, map, sort_by, str_ltb, if◌then◌else◌,
}
use code_rag.Graph.Types.{Values, Node, property}
use code_rag.Graph.Repository.{GraphRepository}
use code_rag.Ctxstore.Records.{Record}
use code_rag.Ctxstore.Digest.{session_digest}

abbrev pub kinds : List String
kinds = "decision" ∷ "convention" ∷ "task" ∷ "note" ∷ []

unfoldable pub is_valid_kind : String → Bool
is_valid_kind k = str_mem k kinds

-- An answer, ErrNotFound, or an error of the repository.
pub data Answer (A : Type 0) : Type 0 where
  answer : A → Answer A
  not_found failed : Answer A

module _ (V : Values) (R : GraphRepository V) where
  open V use {text, truth, as_text, as_truth}

  unfoldable pub str_prop : Node V → String → String
  str_prop n key = elim (as_text (property V n.properties key)) [ none ↦ "" | some s ↦ s ]

  unfoldable pub flag_prop : Node V → String → Bool
  flag_prop n key = elim (as_truth (property V n.properties key)) [ none ↦ false | some b ↦ b ]

  unfoldable pub from_node : Node V → Record
  from_node n = record {
    id = n.id;
    kind = str_prop n "kind";
    title = str_prop n "title";
    body = str_prop n "content";
    source = str_prop n "source";
    pinned = flag_prop n "pinned";
    created_at = str_prop n "created_at";
    score = pos 0;
  }

  -- n == nil || n.Kind != "Memory"; a nil node and an error of GetNode are one in the interface
  unfoldable pub find_memory : String → R.World → Option (Node V)
  find_memory id w = elim (R.get_node w id) [
    | none ↦ none
    | some n ↦ if str_eq n.kind "Memory" then some n else none
  ]

  unfoldable pub get : String → R.World → Answer Record
  get id w = elim (find_memory id w) [ none ↦ not_found | some n ↦ answer (from_node n) ]

  -- the loop of List
  unfoldable pub listed : String → List (Node V) → List Record
  listed kind [] = []
  listed kind (n ∷ nodes) =
      let rest = listed kind nodes in
      if flag_prop n "archived"
      then rest
      else if not (str_eq kind "") && not (str_eq (from_node n).kind kind)
      then rest
      else from_node n ∷ rest

  abbrev pub later : Record → Record → Bool
  later a b = str_ltb b.created_at a.created_at

  unfoldable pub list : String → String → R.World → Option (List Record)
  list project kind w = elim (R.find_nodes "Memory" (("project_id", text project) ∷ []) w) [
    | none ↦ none
    | some nodes ↦ some (sort_by later (listed kind nodes))
  ]

  unfoldable pub set_pinned : String → Bool → R.World → Answer (Unit {0}) × R.World
  set_pinned id pinned w = elim (find_memory id w) [
    | none ↦ (not_found, w)
    | some n ↦
        let (stored, w') =
          R.upsert_node "Memory"
            (("project_id", property V n.properties "project_id")
              ∷ ("title", property V n.properties "title")
              ∷ [])
            (("pinned", truth pinned) ∷ []) w in
        (elim stored [ none ↦ failed | some _ ↦ answer tt ], w')
  ]

  unfoldable pub delete : String → R.World → Answer (Unit {0}) × R.World
  delete id w = elim (get id w) [
    | answer r ↦
        let (removed, w') = R.remove_nodes (id ∷ []) w in
        (if removed then answer tt else failed, w')
    | not_found ↦ (not_found, w)
    | failed ↦ (failed, w)
  ]

  -- how many were removed, and whether without an error
  unfoldable pub reset : String → R.World → Option (ℕ × Bool) × R.World
  reset project w = elim (R.find_nodes "Memory" (("project_id", text project) ∷ []) w) [
    | none ↦ (none, w)
    | some [] ↦ (some (0, true), w)
    | some (n ∷ nodes) ↦
        let ids = map (λ m. m.id) (n ∷ nodes) in
        let (removed, w') = R.remove_nodes ids w in (some (length ids, removed), w')
  ]

  unfoldable pub project_digest :
      String → ℤ → List (String × String) → String → R.World → Option String
  project_digest project budget profile codebase w =
      session_digest (list project "" w) budget profile codebase
