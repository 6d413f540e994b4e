-- ===== src/Privacy/Restart.antt =====
-- Pseudonyms across a restart of the privacy service.
use code_rag.Common.{
  String, true, false, some, List, [], ◌∷◌, ◌≡◌, refl, ◌∙◌, sym, ap, subst, arith, str_eq_iff,
  str_mem, Option-cases, inl, inr,
}
use code_rag.Graph.Types.{Values, ValueLaws, Properties, Node, property}
use code_rag.Graph.Repository.{
  GraphRepository, RepositoryLaws, last_value, has_key, is_reserved, IsIdentity,
}
use code_rag.Cache.Types.{Host}
use code_rag.Cache.Manager.{CacheManager}
use code_rag.Privacy.Bytes.{Bytes, bytes_eq_iff}
use code_rag.Privacy.Policy.{validate}
use code_rag.Privacy.Pseudonymizer.{Pseudonymizer, pseudonymize, restore, find, counter}
use code_rag.Privacy.Service.{
  Codec, PrivacyState, PrivacyService, put_state, find_state, read_policy, with_policy,
  with_snapshot, load_node, load_graph, state, persist_texts, persist, pseudonymize_name,
}

-- Two tables that agree as maps: on every name, every token and every kind.
abbrev pub SameTable : Pseudonymizer → Pseudonymizer → Type 0
SameTable p q =
    ((name : Bytes) → find p.name_to_token name ≡ find q.name_to_token name)
    × ((token : Bytes) → find p.token_to_name token ≡ find q.token_to_name token)
    × ((kind : Bytes) → find p.counters kind ≡ find q.counters kind)

-- Tables that agree give every name, a known or a new one, the same token.
pseudonymize-SameTable :
    (p q : Pseudonymizer)
    → SameTable p q
    → (name kind : Bytes) → (pseudonymize name kind p).0 ≡ (pseudonymize name kind q).0
unfolding pseudonymize counter
pseudonymize-SameTable p q same name kind = ground (arith, same.0 name, same.2 kind)

module _ (K : Codec) (V : Values) (H : Host V) (R : GraphRepository V) where
  open V use {text}

  -- JSON gives back the policy that it wrote, which is valid and the project's, and a table that agrees
  -- with the one that it wrote as maps do.
  abbrev pub IsReadable : String → PrivacyState → Type 0
  IsReadable project st =
      ((json : String)
        → K.marshal_policy st.policy ≡ some json
        → K.unmarshal_policy json ≡ some st.policy)
      × ((json : String)
          → K.marshal_snapshot st.pseudos ≡ some json
          → (t : Pseudonymizer) × (K.unmarshal_snapshot json ≡ some t) × SameTable t st.pseudos)
      × (validate st.policy ≡ true)
      × (st.policy.project_id ≡ project)

  load_node-read :
      (project policy snapshot : String) (n : Node V) (st st0 : PrivacyState) (L : ValueLaws V)
      → property V n.properties "policy" ≡ text policy
      → property V n.properties "pseudonyms" ≡ text snapshot
      → K.unmarshal_policy policy ≡ some st.policy
      → K.unmarshal_snapshot snapshot ≡ some st.pseudos
      → validate st.policy ≡ true
      → st.policy.project_id ≡ project
      → load_node K V H R project n st0 ≡ st
  unfolding load_node read_policy with_policy with_snapshot restore
  load_node-read project policy snapshot n st st0 L p q rp rs valid own =
      ground (arith, L.as_text-text policy, L.as_text-text snapshot)

  -- Loading a state changes nothing but the states in memory.
  state_keeps :
      (project now : String) (s : PrivacyService K V H R)
      → ((state K V H R project now s).1.has_graph ≡ s.has_graph)
        × ((state K V H R project now s).1.has_cache ≡ s.has_cache)
        × ((state K V H R project now s).1.cache.graph ≡ s.cache.graph)
  unfolding state
  state_keeps project now s = elim (Option-cases (find_state project s.states)) [
    | inl new ↦ (ground arith, ground arith, ground arith)
    | inr (st, known) ↦ (ground arith, ground arith, ground arith)
  ]

  -- What persist leaves in the graph, without a cache.
  persist_graph :
      (project now : String) (st : PrivacyState) (s s' : PrivacyService K V H R)
      → s.has_graph ≡ true
      → s.has_cache ≡ false
      → persist K V H R project st now s ≡ (true, s')
      → (policy : String) × (snapshot : String) × (n : Node V) × (K.marshal_policy st.policy
          ≡ some policy)
        × (K.marshal_snapshot st.pseudos ≡ some snapshot)
        × (R.upsert_node "PrivacyState"
              (("project_id", text project) ∷ [])
              (("policy", text policy) ∷ ("pseudonyms", text snapshot) ∷ [])
              s.cache.graph
            ≡ (some n, s'.cache.graph))
        × (s'.has_graph ≡ true)
        × (s'.has_cache ≡ false)
  unfolding persist persist_texts
  persist_graph project now st s s' graph cache e =
      elim (Option-cases (K.marshal_policy st.policy)) [
        | inl lost ↦ absurd (ground arith)
        | inr (policy, p) ↦ elim (Option-cases (K.marshal_snapshot st.pseudos)) [
          | inl lost ↦ absurd (ground arith)
          | inr (snapshot, q) ↦
              elim (Option-cases (
                (R.upsert_node "PrivacyState" (("project_id", text project) ∷ [])
                  (("policy", text policy) ∷ ("pseudonyms", text snapshot) ∷ [])
                  s.cache.graph).0)) [
                    | inl failed ↦ absurd (ground arith)
                    | inr (n, stored) ↦
                        (policy, snapshot, n, p, q, ground arith, ground arith, ground arith)
                  ]
        ]
      ]

  -- The service that starts on the same graph with nothing in memory.
  abbrev pub restarted : PrivacyService K V H R → PrivacyService K V H R
  restarted s = record s { states = [] }

  load_graph-found :
      (project : String) (c : CacheManager V H R) (n : Node V) (rest : List (Node V))
      (st0 : PrivacyState)
      → R.find_nodes "PrivacyState" (("project_id", text project) ∷ []) c.graph ≡ some (n ∷ rest)
      → load_graph K V H R project c st0 ≡ load_node K V H R project n st0
  unfolding load_graph
  load_graph-found project c n rest st0 found = ground arith

  state-restarted :
      (project later : String) (s : PrivacyService K V H R) (n : Node V) (rest : List (Node V))
      (st : PrivacyState)
      → s.has_graph ≡ true
      → s.has_cache ≡ false
      → R.find_nodes "PrivacyState" (("project_id", text project) ∷ []) s.cache.graph
        ≡ some (n ∷ rest)
      → ((st0 : PrivacyState) → load_node K V H R project n st0 ≡ st)
      → (state K V H R project later (restarted s)).0 ≡ st
  unfolding state find_state
  state-restarted project later s n rest st graph cache found read =
      rw (graph, cache) (load_graph-found project s.cache n rest _ found ∙ read _)

  persist-restarted :
      (project now later : String) (st : PrivacyState) (s s' : PrivacyService K V H R)
      (L : ValueLaws V) (W : RepositoryLaws V R)
      → s.has_graph ≡ true
      → s.has_cache ≡ false
      → W.Good s.cache.graph
      → IsReadable project st
      → persist K V H R project st now s ≡ (true, s')
      → (t : Pseudonymizer) × SameTable t st.pseudos
        × ((state K V H R project later (restarted s')).0 ≡ record st { pseudos = t })
  unfolding is_reserved str_mem has_key last_value
  persist-restarted project now later st s s' L W graph cache good (rp, rq, valid, own) e =
      let (policy, snapshot, n, p, q, upserted, graph', cache') =
        persist_graph project now st s s' graph cache e in
      let given : Properties V = ("policy", text policy) ∷ ("pseudonyms", text snapshot) ∷ [] in
      let identity : Properties V = ("project_id", text project) ∷ [] in
      let is : IsIdentity V identity given = (
        refl,
        refl,
        refl,
        ground (arith, L.deep_equal-text project project, str_eq_iff project project),
        tt,
      ) in
      let (rest, found) =
        W.upsert-find "PrivacyState" identity given s.cache.graph s'.cache.graph n upserted is
          good in
      let (old1, there1) =
        W.upsert-property "PrivacyState" identity given s.cache.graph s'.cache.graph n upserted
          "policy" refl refl in
      let (old2, there2) =
        W.upsert-property "PrivacyState" identity given s.cache.graph s'.cache.graph n upserted
          "pseudonyms" refl refl in
      let (t, read, same) = rq snapshot q in
      let st' : PrivacyState = record st { pseudos = t } in
      (
        t,
        same,
        state-restarted project later s' n rest st' graph' cache' found (λ st0.
            load_node-read project policy snapshot n st' st0 L there1 there2 (rp policy p) read
              valid own),
      )

  pseudonymize_again :
      (name kind : Bytes) (p : Pseudonymizer)
      → (pseudonymize name kind (pseudonymize name kind p).1).0 ≡ (pseudonymize name kind p).0
  unfolding pseudonymize find
  pseudonymize_again name kind p = ground (arith, bytes_eq_iff name name)

  -- The state that a call of Pseudonymize persists.
  abbrev pub next_state : Bytes → Bytes → PrivacyState → PrivacyState
  next_state name kind st = record st { pseudos = (pseudonymize name kind st.pseudos).1 }

  -- On a graph without a cache, where JSON reads back the policy that is written, which is valid and the
  -- project's, and a table that agrees with the written one on every name, token and kind: after a
  -- Pseudonymize that persisted the table, a service that starts on the graph with nothing in memory loads
  -- the same policy and a table that agrees with the persisted one. It gives the name the same
  -- token, and any other name of any kind the token that it would have had without the restart.
  pub pseudonymize-restarted :
      (project now later : String) (name kind token : Bytes) (s s' : PrivacyService K V H R)
      (L : ValueLaws V) (W : RepositoryLaws V R)
      → s.has_graph ≡ true
      → s.has_cache ≡ false
      → W.Good s.cache.graph
      → IsReadable project (next_state name kind (state K V H R project now s).0)
      → pseudonymize_name K V H R project name kind now s ≡ ((token, true), s')
      → let after = (state K V H R project later (restarted s')).0 in
        let before = next_state name kind (state K V H R project now s).0 in
        (after.policy ≡ before.policy)
        × SameTable after.pseudos before.pseudos
        × ((pseudonymize name kind after.pseudos).0 ≡ token)
        × ((other k : Bytes)
            → (pseudonymize other k after.pseudos).0 ≡ (pseudonymize other k before.pseudos).0)
  unfolding pseudonymize_name
  pseudonymize-restarted project now later name kind token s s' L W graph cache good readable e =
      let (st, s1) = state K V H R project now s in
      let st' = next_state name kind st in
      let s2 : PrivacyService K V H R = record s1 { states = put_state project st' s1.states } in
      let (same_graph, same_cache, same_world) = state_keeps project now s in
      let persisted : persist K V H R project st' now s2 ≡ (true, s') = ground arith in
      let given : (pseudonymize name kind st.pseudos).0 ≡ token = ground arith in
      let after = (state K V H R project later (restarted s')).0 in
      let (t, same, loaded) =
        persist-restarted project now later st' s2 s' L W (same_graph ∙ graph) (same_cache ∙ cache)
          (subst W.Good (sym same_world) good) readable persisted in
      let agrees : SameTable after.pseudos st'.pseudos =
        subst (λ x. SameTable x.pseudos st'.pseudos) (sym loaded) same in
      let tokens = pseudonymize-SameTable after.pseudos st'.pseudos agrees in
      (
        ap (λ x. x.policy) loaded,
        agrees,
        tokens name kind ∙ pseudonymize_again name kind st.pseudos ∙ given,
        tokens,
      )
