-- ===== src/Cache/Tests.antt =====
-- Runs of the cache over the repository in memory.
use code_rag.Common.{
  ◌↔◌, ℕ, pos, String, Bool, true, false, Option, none, some, List, [], ◌∷◌, ◌≡◌, refl,
}
use code_rag.Graph.Types.{
  Node, MemoryGraph, validate_kind, property, find_property, set_default, put_properties,
  set_property, matches,
}
use code_rag.Graph.Nodes.{
  find_nodes, filter_nodes, sort_by_id, insert_by_id, upsert_node, upsert_one, counted,
  new_properties,
}
use code_rag.Graph.Any.{Any, str, same_any, texts, texts-ValueLaws}
use code_rag.Graph.Repository.{GraphRepository, RepositoryLaws}
use code_rag.Graph.Search.{IsUnique}
use code_rag.Graph.Memory.{memory_repository, memory_upsert, memory_repository-RepositoryLaws}
use code_rag.Cache.Types.{
  Host, CacheEntry, CacheConfig, default_config, InvalidateArgs, freshness_valid, LookupResult,
  cache_miss,
}
use code_rag.Cache.Entries.{generate_cache_key, is_fresh, unmarshal_cache_entry, get_string}
use code_rag.Cache.Manager.{
  Lookup, CacheManager, store_exact_cache, check_exact_cache, count_ordinary, lookup_key,
  count_exact, purge_exact, forget_exact, answer_exact,
}
use code_rag.Cache.Invalidation.{invalidate, filter_by, remove_found}
use code_rag.Cache.Lookups.{
  new_cache_manager, no_stats, store_privacy_policy, get_privacy_policy, store_pseudonym_snapshot,
  get_pseudonym_snapshot, check_cache, status_only,
}
use code_rag.Cache.Semantic.{Arithmetic}
use code_rag.Cache.Stores.{check_exact-store_exact}
use code_rag.Cache.Kept.{get_privacy-store_privacy}
use code_rag.Cache.Removal.{check_exact-invalidate}
use code_rag.Cache.Counting.{counted_for, check_cache_lem}

abbrev host : Host texts
host = record {
  Time = ℕ;
  sha256_hex = λ s. "k";
  marshal = λ v. "";
  as_floats = λ v. none;
  parse_time = λ s. none;
  since_exceeds = λ now t k. false;
}

abbrev repository : GraphRepository texts
repository = memory_repository texts (λ k. "n1") (λ k. "2026-01-01T00:00:00Z")

abbrev empty : MemoryGraph texts
empty = record { nodes = []; edges = []; generation = 0 }

memory_repository-RepositoryLaws_example :
    (W : RepositoryLaws texts repository) × ((w : MemoryGraph texts × ℕ)
      → W.Good w ↔ IsUnique texts w.0.nodes)
memory_repository-RepositoryLaws_example =
    memory_repository-RepositoryLaws texts (λ k. "n1") (λ k. "2026-01-01T00:00:00Z")

abbrev lookup : Lookup texts
lookup = record {
  project_id = "p";
  repo_id = "r";
  commit = "c0ffee";
  binary_hash = "";
  tool_name = "search";
  args = some (("query", str "main") ∷ ("limit", str "5") ∷ []);
}

abbrev answer : List (String × Any)
answer = ("rows", str "3") ∷ []

abbrev config : CacheConfig
config = record default_config { exact = record { enabled = true; max_entries = pos 2 } }

abbrev started : CacheManager texts host repository
started = record {
  graph = (empty, 0);
  config = config;
  stats = no_stats texts host repository;
  exact_count = 0;
}

new_cache_manager_runs : new_cache_manager texts host repository config (empty, 0) ≡ started
unfolding new_cache_manager count_ordinary find_nodes filter_nodes sort_by_id
new_cache_manager_runs = refl

abbrev store : CacheManager texts host repository → Bool × CacheManager texts host repository
store c = store_exact_cache texts host repository lookup (some answer) (pos 1) "agent" "now" c

abbrev stored : CacheManager texts host repository
stored = (store started).1

store_runs : store started ≡ (true, stored)
unfolding store_exact_cache memory_upsert upsert_node validate_kind upsert_one find_nodes sort_by_id
    filter_nodes counted property find_property new_properties set_default put_properties
    set_property count_exact
store_runs = refl

-- The result of the store is the answer of the next check.
check_exact-store_exact_example :
    (e : CacheEntry texts) × (check_exact_cache texts host repository lookup "later" stored
      ≡ (some (some e), stored))
    × ((e.result ≡ some answer)
        × (e.confidence ≡ pos 1)
        × (e.agent ≡ "agent")
        × (e.freshness ≡ freshness_valid)
        × (e.repository_id ≡ "r")
        × (e.git_commit ≡ "c0ffee")
        × (e.binary_hash ≡ ""))
check_exact-store_exact_example =
    let (W, good) = memory_repository-RepositoryLaws_example in
    check_exact-store_exact texts host repository texts-ValueLaws W lookup answer (pos 1) "agent"
      "now" started stored "later" store_runs refl refl refl refl ((good (empty, 0)).1 tt)

abbrev entry : Node texts
entry = record {
  id = "n1";
  kind = "CacheEntry";
  properties =
      ("project_id", str "p")
      ∷ ("cache_key", str "k")
      ∷ ("tool_name", str "search")
      ∷ ("freshness", str "VALID")
      ∷ [];
}

abbrev filled : CacheManager texts host repository
filled = record started { graph = (record empty { nodes = entry ∷ [] }, 1); exact_count = 1 }

abbrev asked : InvalidateArgs
asked = record {
  project_id = "p";
  cache_key = "k";
  cache_id = "";
  tool_name = "search";
  commit = "";
  binary_hash = "";
  file = "";
  artifact = "";
}

abbrev invalidated : CacheManager texts host repository
invalidated = (invalidate texts host repository asked filled).1

invalidate_runs : invalidate texts host repository asked filled ≡ (true, invalidated)
unfolding invalidate filter_by remove_found find_nodes sort_by_id filter_nodes insert_by_id matches
    property find_property same_any forget_exact
invalidate_runs = refl

key_runs : "k" ≡ lookup_key texts host repository lookup
unfolding lookup_key generate_cache_key
key_runs = refl

check_exact-invalidate_example :
    check_exact_cache texts host repository lookup "later" invalidated ≡ (some none, invalidated)
check_exact-invalidate_example =
    check_exact-invalidate texts host repository
      (memory_repository-RepositoryLaws texts (λ k. "n1") (λ k. "2026-01-01T00:00:00Z")).0 lookup
      asked "later" filled invalidated invalidate_runs refl key_runs refl refl refl refl

abbrev kept_policy : CacheManager texts host repository
kept_policy = (store_privacy_policy texts host repository "p" "{}" "now" started).1

get_privacy-store_privacy_example :
    (store_privacy_policy texts host repository "p" "{}" "now" started ≡ (true, kept_policy)
      → get_privacy_policy texts host repository "p" kept_policy ≡ some "{}")
    × (store_pseudonym_snapshot texts host repository "p" "{}" "now" started ≡ (true, kept_policy)
        → get_pseudonym_snapshot texts host repository "p" kept_policy ≡ some "{}")
get_privacy-store_privacy_example =
    let (W, good) = memory_repository-RepositoryLaws_example in
    get_privacy-store_privacy texts host repository texts-ValueLaws W "p" "{}" "now" started
      kept_policy refl ((good (empty, 0)).1 tt)

abbrev arithmetic : Arithmetic
arithmetic = record {
  to_lower = λ s. s;
  add = λ a b. a;
  mul = λ a b. a;
  div = λ a b. a;
  sqrt = λ a. a;
}

abbrev looked : Option (LookupResult texts) × CacheManager texts host repository
looked = check_cache texts host repository arithmetic lookup "later" none filled

abbrev found : LookupResult texts
found = elim (looked.0) [ none ↦ status_only texts host repository cache_miss | some r ↦ r ]

check_cache_runs : looked ≡ (some found, looked.1)
unfolding check_cache check_exact_cache find_nodes sort_by_id filter_nodes matches same_any property
    find_property lookup_key generate_cache_key insert_by_id answer_exact is_fresh
    unmarshal_cache_entry get_string
check_cache_runs = refl

check_cache_lem_example : looked.1.stats ≡ counted_for found.status filled.stats
check_cache_lem_example =
    check_cache_lem texts host repository arithmetic lookup "later" none found filled looked.1
      check_cache_runs refl

abbrev newest : Node texts
newest = record {
  id = "n2";
  kind = "CacheEntry";
  properties = ("project_id", str "p") ∷ ("updated_at", str "2026") ∷ [];
}

abbrev crowded : CacheManager texts host repository
crowded = record filled {
  graph = (record empty { nodes = entry ∷ newest ∷ [] }, 1);
  exact_count = 2;
}

abbrev purged : CacheManager texts host repository
purged = (purge_exact texts host repository (pos 1) crowded).1

abbrev all_found : List (Node texts)
all_found = find_nodes texts "CacheEntry" [] crowded.graph.0
