-- ===== src/Cache/Invalidation.antt =====
-- How CacheManager forgets entries (internal/cache/cache.go).
use code_rag.Common.{
  ℕ, ◌+◌, String, Bool, true, false, Option, none, some, List, [], ◌∷◌, ◌++◌, str_eq, length,
  if◌then◌else◌,
}
use code_rag.Graph.Types.{Values, Properties, Node}
use code_rag.Graph.Repository.{GraphRepository}
use code_rag.Cache.Types.{Host, InvalidateArgs}
use code_rag.Cache.Manager.{CacheManager, ids_of, forget_exact}

module _ (V : Values) (H : Host V) (R : GraphRepository V) where
  open V use {text}

  -- the end that the invalidations share: remove what was found, and count it
  unfoldable pub remove_found :
      Option (List (Node V)) → CacheManager V H R → Option ℕ × CacheManager V H R
  remove_found none c = (none, c)
  remove_found (some []) c = (some 0, c)
  remove_found (some (node ∷ nodes)) c =
      let ids = ids_of V H R (node ∷ nodes) in
      let (removed, graph') = R.remove_nodes ids c.graph in
      let c' = record c { graph = graph' } in
      let count = length ids in
      if removed
      then (
        some count,
        forget_exact V H R count (record c' {
          stats = record (c'.stats) { invalidations = c'.stats.invalidations + count };
        }),
      )
      else (none, c')

  -- filters[key] = value where the value is not empty
  unfoldable pub filter_by : String → String → Properties V
  filter_by key value = if str_eq value "" then [] else (key, text value) ∷ []

  unfoldable pub invalidate : InvalidateArgs → CacheManager V H R → Bool × CacheManager V H R
  invalidate args c =
      let filters =
        ("project_id", text args.project_id) ∷ filter_by "cache_key" args.cache_key
        ++ filter_by "id" args.cache_id
        ++ filter_by "tool_name" args.tool_name in
      let (removed, c') = remove_found (R.find_nodes "CacheEntry" filters c.graph) c in
      (elim removed [ none ↦ false | some _ ↦ true ], c')

  unfoldable pub invalidate_by_commit :
      String → String → CacheManager V H R → Bool × CacheManager V H R
  invalidate_by_commit project commit c =
      let filters = ("project_id", text project) ∷ ("git_commit", text commit) ∷ [] in
      let (removed, c') = remove_found (R.find_nodes "CacheEntry" filters c.graph) c in
      (elim removed [ none ↦ false | some _ ↦ true ], c')

  unfoldable pub invalidate_by_binary_hash :
      String → String → CacheManager V H R → Bool × CacheManager V H R
  invalidate_by_binary_hash project hash c =
      let filters = ("project_id", text project) ∷ ("binary_hash", text hash) ∷ [] in
      let (removed, c') = remove_found (R.find_nodes "CacheEntry" filters c.graph) c in
      (elim removed [ none ↦ false | some _ ↦ true ], c')

  unfoldable pub flush : String → CacheManager V H R → Option ℕ × CacheManager V H R
  flush project c =
      remove_found (R.find_nodes "CacheEntry" (("project_id", text project) ∷ []) c.graph) c
