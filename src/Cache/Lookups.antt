-- ===== src/Cache/Lookups.antt =====
-- The lookup through the levels of the cache, and what it keeps of the privacy service
-- (internal/cache/cache.go). No operation here changes the semantic level, which is an argument.
use code_rag.Common.{
  pos, String, Bool, true, false, Option, none, some, [], ◌∷◌, str_eq, if◌then◌else◌,
}
use code_rag.Graph.Types.{Values, Properties, Node, find_property}
use code_rag.Graph.Repository.{GraphRepository}
use code_rag.Cache.Types.{
  Host, Object, CacheEntry, CacheConfig, CacheStats, CacheStatus, cache_hit, cache_miss,
  cache_partial, stale, LookupResult, schema_version_v1, analysis_version_v1, cache_parser_version,
  freshness_valid, freshness_stale, privacy_policy_key, pseudonym_snapshot_key, one_float,
}
use code_rag.Cache.Entries.{unmarshal_cache_entry}
use code_rag.Cache.Manager.{
  Lookup, CacheManager, check_exact_cache, count_stat, count_ordinary, identity_of,
}
use code_rag.Cache.Semantic.{Arithmetic, SemanticCache, new_semantic_cache, search}

module _ (V : Values) (H : Host V) (R : GraphRepository V) where
  open V use {text, number, object, as_text}

  abbrev pub no_stats : CacheStats
  no_stats = record {
    exact_hits = 0;
    semantic_hits = 0;
    tool_hits = 0;
    analysis_hits = 0;
    graph_hits = 0;
    partial_hits = 0;
    cache_misses = 0;
    stale_hits = 0;
    invalidations = 0;
    llm_calls_saved = 0;
    tool_calls_saved = 0;
    tokens_saved = 0;
    time_saved_seconds = pos 0;
  }

  -- NewCacheManager, but for its semantic level
  unfoldable pub new_cache_manager : CacheConfig → R.World → CacheManager V H R
  new_cache_manager cfg w = record {
    graph = w;
    config = cfg;
    stats = no_stats;
    exact_count =
        if cfg.exact.enabled
        then elim (R.find_nodes "CacheEntry" [] w) [
          | none ↦ 0
          | some entries ↦ count_ordinary V H R entries
        ]
        else 0;
  }

  abbrev pub status_only : CacheStatus → LookupResult V
  status_only status = record {
    status = status;
    result = none;
    entry = none;
    confidence = pos 0;
    evidence = [];
    graph_refs = [];
    reused = [];
    missing = [];
  }

  abbrev pub answer_of : CacheStatus → CacheEntry V → LookupResult V
  answer_of status e = record {
    status = status;
    result = e.result;
    entry = some e;
    confidence = e.confidence;
    evidence = e.evidence_refs;
    graph_refs = e.graph_refs;
    reused = [];
    missing = [];
  }

  -- what CheckCache answers for an exact entry
  unfoldable pub answer_entry :
      CacheEntry V → CacheManager V H R → LookupResult V × CacheManager V H R
  answer_entry e c =
      if str_eq e.freshness freshness_stale
      then (record (status_only stale) { entry = some e }, count_stat V H R "stale_hits" c)
      else (answer_of cache_hit e, count_stat V H R "exact_hits" c)

  module _ (F : Arithmetic) where
    -- the semantic level as NewCacheManager sets it up
    unfoldable pub semantic_level : CacheConfig → Option (SemanticCache F V)
    semantic_level cfg =
        if cfg.semantic.enabled then some (new_semantic_cache F V cfg.semantic) else none

    -- args["query"], a text that is not empty
    unfoldable pub query_of : Option (Object V) → Option String
    query_of none = none
    query_of (some args) = elim (find_property V args "query") [
      | none ↦ none
      | some v ↦ elim (as_text v) [ none ↦ none | some q ↦ if str_eq q "" then none else some q ]
    ]

    unfoldable pub search_semantic :
        CacheConfig → Lookup V → Option (SemanticCache F V) → Option (CacheEntry V)
    search_semantic cfg l none = none
    search_semantic cfg l (some s) =
        if cfg.semantic.enabled
        then elim (query_of l.args) [
          | none ↦ none
          | some q ↦ search F V q l.project_id l.repo_id l.commit l.binary_hash s
        ]
        else none

    unfoldable pub check_cache :
        Lookup V
        → String
        → Option (SemanticCache F V)
        → CacheManager V H R
        → Option (LookupResult V) × CacheManager V H R
    check_cache l now semantic c =
        let (exact, c') = check_exact_cache V H R l now c in
        if c.config.enabled
        then elim exact [
          | none ↦ (none, c')
          | some (some e) ↦ let (answer, c'') = answer_entry e c' in (some answer, c'')
          | some none ↦ elim (search_semantic c.config l semantic) [
            | some e ↦ (some (answer_of cache_partial e), count_stat V H R "semantic_hits" c')
            | none ↦ (some (status_only cache_miss), count_stat V H R "cache_misses" c')
          ]
        ]
        else (some (status_only cache_miss), c)

  -- StorePrivacyPolicy and StorePseudonymSnapshot, which differ in the tool and the key of the result
  abbrev pub kept_properties : String → String → String → Properties V
  kept_properties key json now =
      ("arguments", object [])
      ∷ ("result", object ((key, text json) ∷ []))
      ∷ ("repository_id", text "")
      ∷ ("git_commit", text "")
      ∷ ("binary_hash", text "")
      ∷ ("parser_version", text cache_parser_version)
      ∷ ("schema_version", text schema_version_v1)
      ∷ ("analysis_version", text analysis_version_v1)
      ∷ ("created_at", text now)
      ∷ ("updated_at", text now)
      ∷ ("confidence", number one_float)
      ∷ ("agent", text "privacy_service")
      ∷ ("freshness", text freshness_valid)
      ∷ []

  unfoldable pub store_kept :
      String → String → String → String → String → CacheManager V H R → Bool × CacheManager V H R
  store_kept tool key project json now c =
      let (stored, graph') =
        R.upsert_node "CacheEntry" (identity_of V H R project tool tool)
          (kept_properties key json now) c.graph in
      if c.config.enabled
      then (elim stored [ none ↦ false | some _ ↦ true ], record c { graph = graph' })
      else (true, c)

  unfoldable pub kept_text : String → Node V → String
  kept_text key node = elim ((unmarshal_cache_entry V H node).result) [
    | none ↦ ""
    | some result ↦ elim (find_property V result key) [
      | none ↦ ""
      | some v ↦ elim (as_text v) [ none ↦ "" | some s ↦ s ]
    ]
  ]

  unfoldable pub get_kept : String → String → String → CacheManager V H R → Option String
  get_kept tool key project c =
      if c.config.enabled
      then elim (R.find_nodes "CacheEntry" (identity_of V H R project tool tool) c.graph) [
        | none ↦ none
        | some [] ↦ some ""
        | some (node ∷ _) ↦ some (kept_text key node)
      ]
      else some ""

  unfoldable pub store_privacy_policy :
      String → String → String → CacheManager V H R → Bool × CacheManager V H R
  store_privacy_policy project json now c =
      store_kept privacy_policy_key "policy" project json now c

  unfoldable pub get_privacy_policy : String → CacheManager V H R → Option String
  get_privacy_policy project c = get_kept privacy_policy_key "policy" project c

  unfoldable pub store_pseudonym_snapshot :
      String → String → String → CacheManager V H R → Bool × CacheManager V H R
  store_pseudonym_snapshot project json now c =
      store_kept pseudonym_snapshot_key "snapshot" project json now c

  unfoldable pub get_pseudonym_snapshot : String → CacheManager V H R → Option String
  get_pseudonym_snapshot project c = get_kept pseudonym_snapshot_key "snapshot" project c
