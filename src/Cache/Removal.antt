-- ===== src/Cache/Removal.antt =====
-- What is left in the cache after an invalidation.
use code_rag.Common.{
  ℕ, ◌+◌, String, true, false, Option, none, some, List, [], ◌∷◌, ◌++◌, ◌≡◌, refl, ap, subst, arith,
  str_eq, str_eq_iff, str_mem, Option-cases, ◌⊎◌, inl, inr, All, All-map,
}
use code_rag.Graph.Types.{Values, Properties, Node}
use code_rag.Graph.Repository.{GraphRepository, RepositoryLaws}
use code_rag.Cache.Types.{Host, InvalidateArgs}
use code_rag.Cache.Manager.{
  Lookup, CacheManager, check_exact_cache, identity_of, lookup_key, ids_of, forget_exact,
}
use code_rag.Cache.Invalidation.{remove_found, filter_by, invalidate, flush}

module _ (V : Values) (H : Host V) (R : GraphRepository V) (W : RepositoryLaws V R) where
  open V use {text}

  in_own_ids : (nodes : List (Node V)) → All (λ n. str_mem n.id (ids_of V H R nodes) ≡ true) nodes
  unfolding str_mem
  in_own_ids [] = tt
  in_own_ids (n ∷ nodes) = (
    ground (arith, str_eq_iff n.id n.id),
    All-map (λ m. str_mem m.id (ids_of V H R nodes) ≡ true)
        (λ m. str_mem m.id (ids_of V H R (n ∷ nodes)) ≡ true) (λ m there. ground arith) nodes
        (in_own_ids nodes),
  )

  -- After its results are removed a search finds nothing; they are counted, and the world is still good.
  abbrev IsRemoved : Properties V → ℕ → CacheManager V H R → CacheManager V H R → Type 0
  IsRemoved filters k c c' =
      (R.find_nodes "CacheEntry" filters c'.graph ≡ some [])
      × (c'.stats.invalidations ≡ c.stats.invalidations + k)
      × (c'.exact_count + k ≡ c.exact_count ⊎ c'.exact_count ≡ 0)
      × (c'.config ≡ c.config)
      × (W.Good c.graph → W.Good c'.graph)

  remove_found-nil :
      (k : ℕ) (c c' : CacheManager V H R)
      → remove_found V H R (some []) c ≡ (some k, c')
      → (c ≡ c') × (k ≡ 0)
  unfolding remove_found
  remove_found-nil k c c' e = (ap (λ p. p.1) e, ground arith)

  remove_found-cons :
      (n : Node V) (rest : List (Node V)) (k : ℕ) (c c' : CacheManager V H R)
      → remove_found V H R (some (n ∷ rest)) c ≡ (some k, c')
      → (R.remove_nodes (ids_of V H R (n ∷ rest)) c.graph ≡ (true, c'.graph))
        × (c'.stats.invalidations ≡ c.stats.invalidations + k)
        × (c'.exact_count + k ≡ c.exact_count ⊎ c'.exact_count ≡ 0)
        × (c'.config ≡ c.config)
  unfolding remove_found forget_exact
  remove_found-cons n rest k c c' e = (ground arith, ground arith, ground arith, ground arith)

  remove_found_cases :
      (filters : Properties V) (k : ℕ) (c c' : CacheManager V H R) (o : Option (List (Node V)))
      → R.find_nodes "CacheEntry" filters c.graph ≡ o
      → remove_found V H R o c ≡ (some k, c')
      → IsRemoved filters k c c'
  unfolding remove_found
  remove_found_cases filters k c c' none found e = absurd (ground arith)
  remove_found_cases filters k c c' (some []) found e =
      let (same, zero) = remove_found-nil k c c' e in
      subst (IsRemoved filters k c) same
        (found, ground arith, inl (ground arith), refl, λ good. good)
  remove_found_cases filters k c c' (some (n ∷ rest)) found e =
      let (removed, counted, exact, config) = remove_found-cons n rest k c c' e in
      let ids = ids_of V H R (n ∷ rest) in
      (
        W.remove-find ids c.graph c'.graph "CacheEntry" filters (n ∷ rest) removed found
            (in_own_ids (n ∷ rest)),
        counted,
        exact,
        config,
        λ good. W.remove-Good ids c.graph c'.graph removed good,
      )

  remove_found_lem :
      (filters : Properties V) (k : ℕ) (c c' : CacheManager V H R)
      → remove_found V H R (R.find_nodes "CacheEntry" filters c.graph) c ≡ (some k, c')
      → IsRemoved filters k c c'
  remove_found_lem filters k c c' e =
      remove_found_cases filters k c c' (R.find_nodes "CacheEntry" filters c.graph) refl e

  abbrev filters_of : InvalidateArgs → Properties V
  filters_of args =
      ("project_id", text args.project_id) ∷ filter_by V H R "cache_key" args.cache_key
      ++ filter_by V H R "id" args.cache_id
      ++ filter_by V H R "tool_name" args.tool_name

  invalidate-removed :
      (args : InvalidateArgs) (c c' : CacheManager V H R)
      → invalidate V H R args c ≡ (true, c')
      → (k : ℕ) × (remove_found V H R (R.find_nodes "CacheEntry" (filters_of args) c.graph) c
          ≡ (some k, c'))
  unfolding invalidate
  invalidate-removed args c c' e =
      let out = remove_found V H R (R.find_nodes "CacheEntry" (filters_of args) c.graph) c in
      elim (Option-cases out.0) [
        | inl failed ↦ absurd (ground arith)
        | inr (k, done) ↦ (k, ground arith)
      ]

  filters-identity :
      (l : Lookup V) (args : InvalidateArgs)
      → args.project_id ≡ l.project_id
      → args.cache_key ≡ lookup_key V H R l
      → args.tool_name ≡ l.tool_name
      → args.cache_id ≡ ""
      → str_eq args.cache_key "" ≡ false
      → str_eq args.tool_name "" ≡ false
      → filters_of args ≡ identity_of V H R l.project_id (lookup_key V H R l) l.tool_name
  unfolding filter_by
  filters-identity l args project key tool id has_key has_tool =
      rw (has_key, has_tool, id, project, key, tool) refl

  -- After a Flush with success that says it removed k entries, the project has no entry in the cache; k
  -- more invalidations are counted, the count of entries is k less or 0, and the configuration stays.
  pub flush_lem :
      (project : String) (k : ℕ) (c c' : CacheManager V H R)
      → flush V H R project c ≡ (some k, c')
      → IsRemoved (("project_id", text project) ∷ []) k c c'
  unfolding flush
  flush_lem project k c c' e = remove_found_lem (("project_id", text project) ∷ []) k c c' e

  -- Once Invalidate was called with success for an entry's project, key and tool, the key and the tool
  -- not being empty, CheckExactCache answers a miss and changes nothing.
  pub check_exact-invalidate :
      (l : Lookup V) (args : InvalidateArgs) (now : String) (c c' : CacheManager V H R)
      → invalidate V H R args c ≡ (true, c')
      → args.project_id ≡ l.project_id
      → args.cache_key ≡ lookup_key V H R l
      → args.tool_name ≡ l.tool_name
      → args.cache_id ≡ ""
      → str_eq args.cache_key "" ≡ false
      → str_eq args.tool_name "" ≡ false
      → check_exact_cache V H R l now c' ≡ (some none, c')
  unfolding check_exact_cache
  check_exact-invalidate l args now c c' e project key tool id has_key has_tool =
      let identity = identity_of V H R l.project_id (lookup_key V H R l) l.tool_name in
      let (k, removed) = invalidate-removed args c c' e in
      let same = filters-identity l args project key tool id has_key has_tool in
      let gone =
        subst (λ f. R.find_nodes "CacheEntry" f c'.graph ≡ some []) same
          (remove_found_lem (filters_of args) k c c' removed).0 in
      ground arith
