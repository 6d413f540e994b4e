-- ===== src/Cache/Manager.antt =====
-- CacheManager (internal/cache/cache.go): the exact level of the cache over a graph repository. A call
-- that fails gives no answer; the clock is an argument.
use code_rag.Common.{
  ℕ, ◌+◌, ◌-◌, ℤ, pos, pos_part, ltb_ℤ, leb, ltb, String, Bool, true, false, not, Option, none,
  some, List, [], ◌∷◌, ◌++◌, ◌&&◌, ◌||◌, str_eq, length, drop, map, sort_by, str_ltb, if◌then◌else◌,
}
use code_rag.Graph.Types.{Values, Properties, Node}
use code_rag.Graph.Repository.{GraphRepository}
use code_rag.Cache.Types.{
  Host, Object, CacheEntry, CacheConfig, CacheStats, schema_version_v1, analysis_version_v1,
  cache_parser_version, freshness_valid, freshness_stale,
}
use code_rag.Cache.Entries.{
  generate_cache_key, get_string, is_special_cache_entry, unmarshal_cache_entry, is_fresh,
}

-- IncrementStat; every other field is ignored
unfoldable pub increment_stat : String → CacheStats → CacheStats
increment_stat field s =
    if str_eq field "exact_hits"
    then record s { exact_hits = s.exact_hits + 1 }
    else if str_eq field "semantic_hits"
    then record s { semantic_hits = s.semantic_hits + 1 }
    else if str_eq field "tool_hits"
    then record s { tool_hits = s.tool_hits + 1 }
    else if str_eq field "analysis_hits"
    then record s { analysis_hits = s.analysis_hits + 1 }
    else if str_eq field "graph_hits"
    then record s { graph_hits = s.graph_hits + 1 }
    else if str_eq field "partial_hits"
    then record s { partial_hits = s.partial_hits + 1 }
    else if str_eq field "cache_misses"
    then record s { cache_misses = s.cache_misses + 1 }
    else if str_eq field "stale_hits"
    then record s { stale_hits = s.stale_hits + 1 }
    else if str_eq field "invalidations"
    then record s { invalidations = s.invalidations + 1 }
    else if str_eq field "llm_calls_saved"
    then record s { llm_calls_saved = s.llm_calls_saved + 1 }
    else if str_eq field "tool_calls_saved"
    then record s { tool_calls_saved = s.tool_calls_saved + 1 }
    else s

-- An entry's place in the cache, as the calls give it.
pub record Lookup (V : Values) : Type 0 where
  pub project_id : String
  pub repo_id : String
  pub commit : String
  pub binary_hash : String
  pub tool_name : String
  pub args : Option (Object V)

module _ (V : Values) (H : Host V) (R : GraphRepository V) where
  open V use {text, number, object, null}

  pub record CacheManager : Type 0 where
    pub graph : R.World
    pub config : CacheConfig
    pub stats : CacheStats
    pub exact_count : ℕ

  unfoldable pub count_stat : String → CacheManager → CacheManager
  count_stat field c = record c { stats = increment_stat field c.stats }

  unfoldable pub lookup_key : Lookup V → String
  lookup_key l = generate_cache_key V H (record {
    project_id = l.project_id;
    repository_id = l.repo_id;
    git_commit = l.commit;
    binary_hash = l.binary_hash;
    tool_name = l.tool_name;
    arguments = l.args;
    parser_version = cache_parser_version;
    schema_version = schema_version_v1;
    analysis_version = analysis_version_v1;
  })

  abbrev pub identity_of : String → String → String → Properties V
  identity_of project key tool =
      ("project_id", text project) ∷ ("cache_key", text key) ∷ ("tool_name", text tool) ∷ []

  unfoldable pub forget_exact : ℕ → CacheManager → CacheManager
  forget_exact count c =
      if leb c.exact_count count
      then record c { exact_count = 0 }
      else record c { exact_count = c.exact_count - count }

  -- An answer without an entry is a miss; the entry of a stale hit has its freshness only.
  unfoldable pub stale_entry : CacheEntry V
  stale_entry = record {
    cache_key = "";
    tool_name = "";
    arguments = none;
    result = none;
    project_id = "";
    repository_id = "";
    git_commit = "";
    binary_hash = "";
    parser_version = "";
    analysis_version = "";
    schema_version = "";
    created_at = "";
    updated_at = "";
    confidence = pos 0;
    model = "";
    model_version = "";
    agent = "";
    evidence_refs = [];
    graph_refs = [];
    freshness = freshness_stale;
    embedding = none;
  }

  -- what CheckExactCache does with the first node that it finds
  unfoldable pub answer_exact :
      String → Node V → CacheManager → Option (Option (CacheEntry V)) × CacheManager
  answer_exact now node c =
      let entry = unmarshal_cache_entry V H node in
      let (removed, graph') = R.remove_nodes (node.id ∷ []) c.graph in
      let c' = record c { graph = graph' } in
      if is_fresh V H c.config now entry
      then (some (some entry), c)
      else if removed
      then (
        some (some stale_entry),
        count_stat "stale_hits" (if is_special_cache_entry V H node then c' else forget_exact 1 c'),
      )
      else (none, c')

  unfoldable pub check_exact_cache :
      Lookup V → String → CacheManager → Option (Option (CacheEntry V)) × CacheManager
  check_exact_cache l now c =
      if not c.config.enabled || not c.config.exact.enabled
      then (some none, c)
      else elim (R.find_nodes "CacheEntry" (identity_of l.project_id (lookup_key l) l.tool_name)
          c.graph) [
            | none ↦ (none, c)
            | some [] ↦ (some none, c)
            | some (node ∷ _) ↦ answer_exact now node c
          ]

  unfoldable pub map_value : Option (Object V) → V.Value
  map_value none = object []
  map_value (some o) = object o

  abbrev pub stored_properties : Lookup V → Option (Object V) → ℤ → String → String → Properties V
  stored_properties l result confidence agent now =
      ("arguments", map_value l.args)
      ∷ ("result", map_value result)
      ∷ ("repository_id", text l.repo_id)
      ∷ ("git_commit", text l.commit)
      ∷ ("binary_hash", text l.binary_hash)
      ∷ ("parser_version", text cache_parser_version)
      ∷ ("schema_version", text schema_version_v1)
      ∷ ("analysis_version", text analysis_version_v1)
      ∷ ("created_at", text now)
      ∷ ("updated_at", text now)
      ∷ ("confidence", number confidence)
      ∷ ("agent", text agent)
      ∷ ("freshness", text freshness_valid)
      ∷ []

  -- byProject[projectID] = append(byProject[projectID], entry)
  unfoldable pub add_to_project :
      String → Node V → List (String × List (Node V)) → List (String × List (Node V))
  add_to_project project entry [] = (project, entry ∷ []) ∷ []
  add_to_project project entry ((p, entries) ∷ groups) =
      if str_eq p project
      then (p, entries ++ entry ∷ []) ∷ groups
      else (p, entries) ∷ add_to_project project entry groups

  unfoldable pub group_entries :
      List (Node V) → List (String × List (Node V)) → List (String × List (Node V))
  group_entries [] groups = groups
  group_entries (entry ∷ entries) groups = group_entries entries (
      if is_special_cache_entry V H entry
      then groups
      else add_to_project (get_string V H entry.properties "project_id") entry groups)

  -- newest first, then by identifier
  unfoldable pub newer : Node V → Node V → Bool
  newer a b =
      let at_a = get_string V H a.properties "updated_at" in
      let at_b = get_string V H b.properties "updated_at" in
      if str_eq at_a at_b then str_ltb a.id b.id else str_ltb at_b at_a

  -- what one project loses, and how many of its entries stay
  unfoldable pub purge_project : ℕ → List (Node V) → List (Node V) × ℕ
  purge_project max entries =
      let sorted = sort_by newer entries in
      if ltb max (length sorted) then (drop max sorted, max) else ([], length sorted)

  unfoldable pub purge_groups : ℕ → List (String × List (Node V)) → List (Node V) × ℕ
  purge_groups max [] = ([], 0)
  purge_groups max ((project, entries) ∷ groups) =
      let (lost, kept) = purge_project max entries in
      let (losts, kepts) = purge_groups max groups in (lost ++ losts, kept + kepts)

  abbrev pub ids_of : List (Node V) → List String
  ids_of nodes = map (λ n. n.id) nodes

  -- RemoveNodes, where there is something to remove
  unfoldable pub remove_ids : List String → CacheManager → Bool × CacheManager
  remove_ids [] c = (true, c)
  remove_ids (id ∷ ids) c =
      let (removed, graph') = R.remove_nodes (id ∷ ids) c.graph in
      (removed, record c { graph = graph' })

  unfoldable pub purge_exact : ℤ → CacheManager → Option ℕ × CacheManager
  purge_exact max c =
      if not (ltb_ℤ (pos 0) max) then (some 0, c) else elim (R.find_nodes "CacheEntry" [] c.graph) [
        | none ↦ (none, c)
        | some entries ↦
            let (lost, remaining) = purge_groups (pos_part max) (group_entries entries []) in
            let (removed, c') = remove_ids (ids_of lost) c in
            if removed
            then (
              some (length lost),
              record c' {
                exact_count = remaining;
                stats = record (c'.stats) { invalidations = c'.stats.invalidations + length lost };
              },
            )
            else (none, c')
      ]

  -- what StoreExactCache does after a node was added
  unfoldable pub count_exact : CacheManager → Bool × CacheManager
  count_exact c =
      let c' = record c { exact_count = c.exact_count + 1 } in
      let max = c.config.exact.max_entries in
      let (purged, c'') = purge_exact max c' in
      if ltb_ℤ (pos 0) max && ltb_ℤ max (pos c'.exact_count)
      then (elim purged [ none ↦ false | some _ ↦ true ], c'')
      else (true, c')

  unfoldable pub store_exact_cache :
      Lookup V → Option (Object V) → ℤ → String → String → CacheManager → Bool × CacheManager
  store_exact_cache l result confidence agent now c =
      let identity = identity_of l.project_id (lookup_key l) l.tool_name in
      if not c.config.enabled || not c.config.exact.enabled
      then (true, c)
      else elim (R.find_nodes "CacheEntry" identity c.graph) [
        | none ↦ (false, c)
        | some existing ↦
            let (stored, graph') =
              R.upsert_node "CacheEntry" identity (stored_properties l result confidence agent now)
                c.graph in
            let c' = record c { graph = graph' } in
            elim stored [
              | none ↦ (false, c')
              | some _ ↦ elim existing [ [] ↦ count_exact c' | _ ∷ _ ↦ (true, c') ]
            ]
      ]

  unfoldable pub set_ttl : Bool → ℤ → CacheManager → CacheManager
  set_ttl enabled seconds c = record c {
    config = record (c.config) { ttl = record { enabled = enabled; seconds = seconds } };
  }

  unfoldable pub count_ordinary : List (Node V) → ℕ
  count_ordinary [] = 0
  count_ordinary (n ∷ nodes) =
      let rest = count_ordinary nodes in if is_special_cache_entry V H n then rest else rest + 1
