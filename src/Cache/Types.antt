-- ===== src/Cache/Types.antt =====
-- The data of the context cache (internal/cache/cache.go). A counter of Go type int is a natural number:
-- it counts calls or nodes and does not come near 2^63. A float64 is the integer that it is in units
-- of 2^-1074; infinities and NaN are left out. Locks guard single fields and are left out.
use code_rag.Common.{ℕ, ◌*◌, ◌^◌, ℤ, pos, String, Bool, true, false, Option, List}
use code_rag.Graph.Types.{Values}

pub record LevelConfig : Type 0 where
  pub enabled : Bool
  pub max_entries : ℤ

pub record SemanticConfig : Type 0 where
  pub enabled : Bool
  pub threshold : ℤ
  pub max_results : ℤ
  pub max_entries : ℤ

pub record LlmCacheConfig : Type 0 where
  pub enabled : Bool
  pub cache_responses : Bool

pub record TtlConfig : Type 0 where
  pub enabled : Bool
  pub seconds : ℤ

pub record InvalidationConfig : Type 0 where
  pub git : Bool
  pub binary_hash : Bool
  pub dependency : Bool
  pub tool_version : Bool

pub record ConcurrencyConfig : Type 0 where
  pub prevent_duplicate_work : Bool

pub record PrivacyConfig : Type 0 where
  pub cache_llm_responses : Bool
  pub cache_source_content : Bool
  pub cache_binary_content : Bool
  pub cache_tool_results : Bool

pub record CacheConfig : Type 0 where
  pub enabled : Bool
  pub exact : LevelConfig
  pub semantic : SemanticConfig
  pub tool : LevelConfig
  pub analysis : LevelConfig
  pub llm : LlmCacheConfig
  pub ttl : TtlConfig
  pub invalidation : InvalidationConfig
  pub concurrency : ConcurrencyConfig
  pub privacy : PrivacyConfig

-- 1.0
abbrev pub one_float : ℤ
one_float = pos (2 ^ 1074)

abbrev pub default_config : CacheConfig
default_config = record {
  enabled = true;
  exact = record { enabled = true; max_entries = pos 10000 };
  semantic = record {
    enabled = true;
    threshold = pos (8286623314361713 * 2 ^ 1021);
    max_results = pos 5;
    max_entries = pos 10000;
  };
  tool = record { enabled = true; max_entries = pos 0 };
  analysis = record { enabled = true; max_entries = pos 0 };
  llm = record { enabled = true; cache_responses = true };
  ttl = record { enabled = false; seconds = pos 86400 };
  invalidation = record { git = true; binary_hash = true; dependency = true; tool_version = true };
  concurrency = record { prevent_duplicate_work = true };
  privacy = record {
    cache_llm_responses = true;
    cache_source_content = false;
    cache_binary_content = false;
    cache_tool_results = true;
  };
}

pub record CacheStats : Type 0 where
  pub exact_hits : ℕ
  pub semantic_hits : ℕ
  pub tool_hits : ℕ
  pub analysis_hits : ℕ
  pub graph_hits : ℕ
  pub partial_hits : ℕ
  pub cache_misses : ℕ
  pub stale_hits : ℕ
  pub invalidations : ℕ
  pub llm_calls_saved : ℕ
  pub tool_calls_saved : ℕ
  pub tokens_saved : ℕ
  pub time_saved_seconds : ℤ

pub data CacheStatus : Type 0 where
  cache_hit cache_miss cache_partial stale : CacheStatus

-- What the cache takes from the standard library: the hex digits of SHA-256, json.Marshal with its
-- error ignored, an assertion to []float64, time.Parse for RFC 3339, and whether more than a number of
-- seconds lie between a parsed time and now.
pub record Host (V : Values) : Type 1 where
  pub Time : Type 0
  pub sha256_hex : String → String
  pub marshal : V.Value → String
  pub as_floats : V.Value → Option (List ℤ)
  pub parse_time : String → Option Time
  pub since_exceeds : String → Time → ℤ → Bool

module _ (V : Values) where
  abbrev pub Object : Type 0
  Object = List (String × V.Value)

  -- A nil map is none.
  pub record CacheEntry : Type 0 where
    pub cache_key : String
    pub tool_name : String
    pub arguments : Option Object
    pub result : Option Object
    pub project_id : String
    pub repository_id : String
    pub git_commit : String
    pub binary_hash : String
    pub parser_version : String
    pub analysis_version : String
    pub schema_version : String
    pub created_at : String
    pub updated_at : String
    pub confidence : ℤ
    pub model : String
    pub model_version : String
    pub agent : String
    pub evidence_refs : List String
    pub graph_refs : List String
    pub freshness : String
    pub embedding : Option (List ℤ)

  pub record LookupResult : Type 0 where
    pub status : CacheStatus
    pub result : Option Object
    pub entry : Option CacheEntry
    pub confidence : ℤ
    pub evidence : List String
    pub graph_refs : List String
    pub reused : List String
    pub missing : List String

  pub record CacheKeyInput : Type 0 where
    pub project_id : String
    pub repository_id : String
    pub git_commit : String
    pub binary_hash : String
    pub tool_name : String
    pub arguments : Option Object
    pub parser_version : String
    pub schema_version : String
    pub analysis_version : String

-- The fields that an invalidation reads; Commit, BinaryHash, File and Artifact are read by nothing.
pub record InvalidateArgs : Type 0 where
  pub project_id : String
  pub cache_key : String
  pub cache_id : String
  pub tool_name : String
  pub commit : String
  pub binary_hash : String
  pub file : String
  pub artifact : String

abbrev pub schema_version_v1 : String
schema_version_v1 = "v1"

abbrev pub analysis_version_v1 : String
analysis_version_v1 = "v1"

abbrev pub cache_parser_version : String
cache_parser_version = "regex-v1"

abbrev pub freshness_valid : String
freshness_valid = "VALID"

abbrev pub freshness_stale : String
freshness_stale = "STALE"

abbrev pub freshness_invalid : String
freshness_invalid = "INVALID"

abbrev pub privacy_state_key : String
privacy_state_key = "__privacy_state__"

abbrev pub privacy_policy_key : String
privacy_policy_key = "__privacy_policy__"

abbrev pub pseudonym_snapshot_key : String
pseudonym_snapshot_key = "__pseudonym_snapshot__"
