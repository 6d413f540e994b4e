-- ===== src/Cache/Entries.antt =====
-- Keys of the cache and the entries that its nodes hold (internal/cache/cache.go).
use Prim.Native.String.{◌++◌ as str_append}
use code_rag.Common.{
  pos, String, Bool, true, not, Option, none, some, List, [], ◌∷◌, ◌&&◌, ◌||◌, str_eq, sort_by,
  str_ltb, if◌then◌else◌,
}
use code_rag.Graph.Types.{Values, Properties, Node, find_property, property}
use code_rag.Cache.Types.{
  Host, Object, CacheEntry, CacheKeyInput, CacheConfig, schema_version_v1, privacy_state_key,
  privacy_policy_key, pseudonym_snapshot_key, freshness_invalid, freshness_stale,
}

-- strings.Join
unfoldable pub join : String → List String → String
join sep [] = ""
join sep (s ∷ ss) = elim ss [ [] ↦ s | _ ∷ _ ↦ str_append s (str_append sep (join sep ss)) ]

module _ (V : Values) (H : Host V) where
  open V use {Value, as_text, as_object, as_number}

  -- the parts of normalizeArgs, for the keys in order
  unfoldable pub argument_parts : Object V → List String
  argument_parts [] = []
  argument_parts ((k, v) ∷ args) =
      let rest = argument_parts args in
      if str_eq k "project_id" then rest else str_append k (str_append "=" (H.marshal v)) ∷ rest

  abbrev key_before : String × Value → String × Value → Bool
  key_before a b = str_ltb a.0 b.0

  unfoldable pub normalize_args : Option (Object V) → String
  normalize_args none = "{}"
  normalize_args (some args) = join "&" (argument_parts (sort_by key_before args))

  unfoldable pub generate_cache_key : CacheKeyInput V → String
  generate_cache_key input = H.sha256_hex (
      join "|" (
        input.project_id
        ∷ input.repository_id
        ∷ input.git_commit
        ∷ input.binary_hash
        ∷ input.tool_name
        ∷ normalize_args input.arguments
        ∷ input.parser_version
        ∷ input.schema_version
        ∷ input.analysis_version
        ∷ schema_version_v1
        ∷ []))

  unfoldable pub get_string : Properties V → String → String
  get_string props key = elim (find_property V props key) [
    | none ↦ ""
    | some v ↦ elim (as_text v) [ none ↦ "" | some s ↦ s ]
  ]

  unfoldable pub is_special_cache_entry : Node V → Bool
  is_special_cache_entry node =
      let tool = get_string node.properties "tool_name" in
      str_eq tool privacy_state_key
      || str_eq tool privacy_policy_key
      || str_eq tool pseudonym_snapshot_key

  unfoldable pub unmarshal_cache_entry : Node V → CacheEntry V
  unmarshal_cache_entry node =
      let props = node.properties in
      record {
        cache_key = get_string props "cache_key";
        tool_name = get_string props "tool_name";
        arguments = as_object (property V props "arguments");
        result = as_object (property V props "result");
        project_id = get_string props "project_id";
        repository_id = get_string props "repository_id";
        git_commit = get_string props "git_commit";
        binary_hash = get_string props "binary_hash";
        parser_version = get_string props "parser_version";
        analysis_version = get_string props "analysis_version";
        schema_version = get_string props "schema_version";
        created_at = get_string props "created_at";
        updated_at = get_string props "updated_at";
        confidence = elim (as_number (property V props "confidence")) [ none ↦ pos 0 | some x ↦ x ];
        model = "";
        model_version = "";
        agent = get_string props "agent";
        evidence_refs = [];
        graph_refs = [];
        freshness = get_string props "freshness";
        embedding = H.as_floats (property V props "embedding");
      }

  unfoldable pub is_fresh : CacheConfig → String → CacheEntry V → Bool
  is_fresh config now entry =
      not (str_eq entry.freshness freshness_invalid)
      && not (str_eq entry.freshness freshness_stale)
      && (if config.ttl.enabled
          then elim (H.parse_time entry.updated_at) [
            | none ↦ true
            | some t ↦ not (H.since_exceeds now t config.ttl.seconds)
          ]
          else true)
