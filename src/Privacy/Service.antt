-- ===== src/Privacy/Service.antt =====
-- PrivacyService (internal/services/privacy.go): the policy and the pseudonyms of each project, kept in
-- memory, in the graph repository and in the context cache. JSON is a parameter. The graph is the one that
-- the cache works on, as the server sets it up; a missing graph or cache is a flag.
use code_rag.Common.{
  String, Bool, true, false, not, Option, none, some, List, [], ◌∷◌, ◌&&◌, ◌||◌, str_eq,
  if◌then◌else◌,
}
use code_rag.Graph.Types.{Values, Node, property}
use code_rag.Graph.Repository.{GraphRepository}
use code_rag.Cache.Types.{Host}
use code_rag.Cache.Manager.{CacheManager}
use code_rag.Cache.Lookups.{
  get_privacy_policy, get_pseudonym_snapshot, store_privacy_policy, store_pseudonym_snapshot,
}
use code_rag.Privacy.Bytes.{Bytes}
use code_rag.Privacy.Policy.{PrivacyPolicy, default_policy, validate}
use code_rag.Privacy.Pseudonymizer.{Pseudonymizer, new_pseudonymizer, pseudonymize, restore}

-- json.Marshal and json.Unmarshal of policies and of snapshots.
pub record Codec : Type 0 where
  pub marshal_policy : PrivacyPolicy → Option String
  pub unmarshal_policy : String → Option PrivacyPolicy
  pub marshal_snapshot : Pseudonymizer → Option String
  pub unmarshal_snapshot : String → Option Pseudonymizer

pub record PrivacyState : Type 0 where
  pub policy : PrivacyPolicy
  pub pseudos : Pseudonymizer

unfoldable pub find_state : String → List (String × PrivacyState) → Option PrivacyState
find_state project [] = none
find_state project ((p, st) ∷ states) =
    if str_eq p project then some st else find_state project states

-- s.states[projectID] = st, the newest entry first
abbrev pub put_state :
    String → PrivacyState → List (String × PrivacyState) → List (String × PrivacyState)
put_state project st states = (project, st) ∷ states

module _ (K : Codec) where
  -- a policy that reads and is valid, for the project
  unfoldable pub read_policy : String → String → Option PrivacyPolicy
  read_policy project json = elim (K.unmarshal_policy json) [
    | none ↦ none
    | some p ↦ if validate p then some (record p { project_id = project }) else none
  ]

  unfoldable pub with_policy : Option PrivacyPolicy → PrivacyState → PrivacyState
  with_policy none st = st
  with_policy (some p) st = record st { policy = p }

  unfoldable pub with_snapshot : Option Pseudonymizer → PrivacyState → PrivacyState
  with_snapshot none st = st
  with_snapshot (some snap) st = record st { pseudos = restore (some snap) st.pseudos }

  -- a text of the cache, where it gives one
  unfoldable pub given_text : Option String → Option String
  given_text none = none
  given_text (some s) = if str_eq s "" then none else some s

  module _ (V : Values) (H : Host V) (R : GraphRepository V) where
    open V use {text, as_text}

    pub record PrivacyService : Type 0 where
      pub cache : CacheManager V H R
      pub has_graph : Bool
      pub has_cache : Bool
      pub states : List (String × PrivacyState)

    abbrev is_some {ℓ} : {A : Type ℓ} → Option A → Bool
    is_some none = false
    is_some (some a) = true

    unfoldable pub load_cached : String → CacheManager V H R → PrivacyState → PrivacyState × Bool
    load_cached project c st =
        let policy : Option PrivacyPolicy = elim (given_text (get_privacy_policy V H R project c)) [
          | none ↦ none
          | some json ↦ read_policy project json
        ] in
        let snapshot : Option Pseudonymizer =
          elim (given_text (get_pseudonym_snapshot V H R project c)) [
            | none ↦ none
            | some json ↦ K.unmarshal_snapshot json
          ] in
        (with_snapshot snapshot (with_policy policy st), is_some policy || is_some snapshot)

    -- what the node of a project holds
    unfoldable pub load_node : String → Node V → PrivacyState → PrivacyState
    load_node project n st =
        let policy : Option PrivacyPolicy = elim (as_text (property V n.properties "policy")) [
          | none ↦ none
          | some json ↦ read_policy project json
        ] in
        let snapshot : Option Pseudonymizer =
          elim (as_text (property V n.properties "pseudonyms")) [
            | none ↦ none
            | some json ↦ K.unmarshal_snapshot json
          ] in
        with_snapshot snapshot (with_policy policy st)

    unfoldable pub load_graph : String → CacheManager V H R → PrivacyState → PrivacyState
    load_graph project c st =
        elim (R.find_nodes "PrivacyState" (("project_id", text project) ∷ []) c.graph) [
          | none ↦ st
          | some [] ↦ st
          | some (n ∷ _) ↦ load_node project n st
        ]

    unfoldable pub state : String → String → PrivacyService → PrivacyState × PrivacyService
    state project now s =
        let fresh : PrivacyState = record {
          policy = default_policy project now;
          pseudos = new_pseudonymizer;
        } in
        let (cached, found) = load_cached project s.cache fresh in
        let st = if s.has_cache then cached else fresh in
        let loaded =
          if not (s.has_cache && found) && s.has_graph then load_graph project s.cache st else st in
        elim (find_state project s.states) [
          | some known ↦ (known, s)
          | none ↦ (loaded, record s { states = put_state project loaded s.states })
        ]

    -- the part of persist that writes to the cache
    unfoldable pub persist_cached :
        String → String → String → String → CacheManager V H R → Bool × CacheManager V H R
    persist_cached project policy snapshot now c =
        let (stored, c1) = store_privacy_policy V H R project policy now c in
        let (kept, c2) = store_pseudonym_snapshot V H R project snapshot now c1 in
        if stored then (kept, c2) else (false, c1)

    unfoldable pub persist_texts :
        String → String → String → String → PrivacyService → Bool × PrivacyService
    persist_texts project policy snapshot now s =
        let (stored, graph') =
          R.upsert_node "PrivacyState" (("project_id", text project) ∷ [])
            (("policy", text policy) ∷ ("pseudonyms", text snapshot) ∷ []) s.cache.graph in
        let c = if s.has_graph then record (s.cache) { graph = graph' } else s.cache in
        let (kept, c') = persist_cached project policy snapshot now c in
        if s.has_graph && not (is_some stored)
        then (false, record s { cache = c })
        else if s.has_cache
        then (kept, record s { cache = c' })
        else (true, record s { cache = c })

    unfoldable pub persist : String → PrivacyState → String → PrivacyService → Bool × PrivacyService
    persist project st now s =
        if not s.has_graph && not s.has_cache
        then (true, s)
        else elim (K.marshal_policy st.policy) [
          | none ↦ (false, s)
          | some policy ↦ elim (K.marshal_snapshot st.pseudos) [
            | none ↦ (false, s)
            | some snapshot ↦ persist_texts project policy snapshot now s
          ]
        ]

    -- an invalid policy is refused before anything is loaded
    unfoldable pub set_policy : PrivacyPolicy → String → PrivacyService → Bool × PrivacyService
    set_policy p now s =
        let (st, s1) = state p.project_id now s in
        let st' : PrivacyState = record st { policy = p } in
        if validate p
        then persist p.project_id st' now
            (record s1 { states = put_state p.project_id st' s1.states })
        else (false, s)

    -- the token, and whether the table was persisted
    unfoldable pub pseudonymize_name :
        String → Bytes → Bytes → String → PrivacyService → (Bytes × Bool) × PrivacyService
    pseudonymize_name project name kind now s =
        let (st, s1) = state project now s in
        let (token, pseudos') = pseudonymize name kind st.pseudos in
        let st' : PrivacyState = record st { pseudos = pseudos' } in
        let (kept, s2) =
          persist project st' now (record s1 { states = put_state project st' s1.states }) in
        ((token, kept), s2)
