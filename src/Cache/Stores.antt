-- ===== src/Cache/Stores.antt =====
-- What the cache gives back of what was stored in it.
use code_rag.Common.{
  ◌+◌, ℤ, pos, ltb_ℤ, String, true, false, some, List, ◌∷◌, ◌≡◌, refl, ◌∙◌, ap, ◌&&◌, arith,
  str_eq_iff, str_mem, Option-cases, inl, inr,
}
use code_rag.Graph.Types.{Values, ValueLaws, Properties, Node, find_property, property}
use code_rag.Graph.Repository.{
  GraphRepository, RepositoryLaws, last_value, has_key, is_reserved, IsIdentity,
}
use code_rag.Cache.Types.{Host, Object, CacheEntry, freshness_valid}
use code_rag.Cache.Entries.{get_string, unmarshal_cache_entry, is_fresh}
use code_rag.Cache.Manager.{
  Lookup, CacheManager, check_exact_cache, answer_exact, store_exact_cache, stored_properties,
  lookup_key, count_exact, identity_of, map_value,
}

module _ (V : Values) (H : Host V) (R : GraphRepository V) where
  pub check_exact_cache-fresh :
      (l : Lookup V) (c : CacheManager V H R) (n : Node V) (rest : List (Node V)) (at_ : String)
      → c.config.enabled ≡ true
      → c.config.exact.enabled ≡ true
      → R.find_nodes "CacheEntry"
          (identity_of V H R l.project_id (lookup_key V H R l) l.tool_name)
          c.graph
        ≡ some (n ∷ rest)
      → is_fresh V H c.config at_ (unmarshal_cache_entry V H n) ≡ true
      → check_exact_cache V H R l at_ c ≡ (some (some (unmarshal_cache_entry V H n)), c)
  unfolding check_exact_cache answer_exact
  check_exact_cache-fresh l c n rest at_ on exact found fresh = ground arith

module _ (V : Values) (H : Host V) (R : GraphRepository V) (L : ValueLaws V) where
  open V use {text, number, object, as_text}

  get_string-property :
      (props : Properties V) (key s : String)
      → property V props key ≡ text s
      → get_string V H props key ≡ s
  unfolding get_string property
  get_string-property props key s e =
      ground (arith, Option-cases (find_property V props key), L.as_text-text s, L.as_text-null)

  pub identity_of-IsIdentity :
      (project key tool : String) (properties : Properties V)
      → has_key V properties "project_id" ≡ false
      → has_key V properties "cache_key" ≡ false
      → has_key V properties "tool_name" ≡ false
      → IsIdentity V (identity_of V H R project key tool) properties
  unfolding has_key
  identity_of-IsIdentity project key tool properties p k t =
      (p, refl, refl, self project, (k, refl, refl, self key, (t, refl, refl, self tool, tt)))
    where
      self : (s : String) → V.deep_equal (text s) (text s) ≡ true
      self s = ground (arith, L.deep_equal-text s s, str_eq_iff s s)

  module _ (W : RepositoryLaws V R) (l : Lookup V) (o : Object V) (confidence : ℤ)
      (agent now : String) where
    abbrev kept : Properties V
    kept = stored_properties V H R l (some o) confidence agent now

    -- An entry that says what was stored.
    abbrev IsStored : CacheEntry V → Type 0
    IsStored e =
        (e.result ≡ some o)
        × (e.confidence ≡ confidence)
        × (e.agent ≡ agent)
        × (e.freshness ≡ freshness_valid)
        × (e.repository_id ≡ l.repo_id)
        × (e.git_commit ≡ l.commit)
        × (e.binary_hash ≡ l.binary_hash)

    stored_value :
        (w w' : R.World) (n : Node V)
        → R.upsert_node "CacheEntry"
            (identity_of V H R l.project_id (lookup_key V H R l) l.tool_name)
            kept
            w
          ≡ (some n, w')
        → (key : String) (v : V.Value) → is_reserved V key ≡ false
        → has_key V (identity_of V H R l.project_id (lookup_key V H R l) l.tool_name) key ≡ false
        → ((old : V.Value) → last_value V kept key old ≡ v)
        → property V n.properties key ≡ v
    stored_value w w' n e key v free apart last =
        let (old, there) =
          W.upsert-property "CacheEntry"
            (identity_of V H R l.project_id (lookup_key V H R l) l.tool_name) kept w w' n e key free
            apart in
        there ∙ last old

    unmarshal-IsStored :
        (w w' : R.World) (n : Node V)
        → R.upsert_node "CacheEntry"
            (identity_of V H R l.project_id (lookup_key V H R l) l.tool_name)
            kept
            w
          ≡ (some n, w')
        → IsStored (unmarshal_cache_entry V H n)
    unfolding unmarshal_cache_entry is_reserved str_mem has_key last_value map_value
    unmarshal-IsStored w w' n e =
        let string =
          λ (key s : String) (free : is_reserved V key ≡ false)
              (apart : has_key V (identity_of V H R l.project_id (lookup_key V H R l) l.tool_name)
                  key
                ≡ false)
              (last : (old : V.Value) → last_value V kept key old ≡ text s).
            get_string-property n.properties key s
              (stored_value w w' n e key (text s) free apart last) in
        (
          ap V.as_object (stored_value w w' n e "result" (object o) refl refl (λ old. refl))
              ∙ L.as_object-object o,
          ground (
            arith,
            stored_value w w' n e "confidence" (number confidence) refl refl (λ old. refl),
            L.as_number-number confidence,
          ),
          string "agent" agent refl refl (λ old. refl),
          string "freshness" freshness_valid refl refl (λ old. refl),
          string "repository_id" l.repo_id refl refl (λ old. refl),
          string "git_commit" l.commit refl refl (λ old. refl),
          string "binary_hash" l.binary_hash refl refl (λ old. refl),
        )

    -- No more entries than the configuration allows, with the one that is stored.
    abbrev HasRoom : CacheManager V H R → Type 0
    HasRoom c =
        (ltb_ℤ (pos 0) c.config.exact.max_entries
          && ltb_ℤ c.config.exact.max_entries (pos (c.exact_count + 1)))
        ≡ false

    store_exact_cache_cases :
        (c c' : CacheManager V H R)
        → store_exact_cache V H R l (some o) confidence agent now c ≡ (true, c')
        → c.config.enabled ≡ true
        → c.config.exact.enabled ≡ true
        → HasRoom c
        → (n : Node V) × (R.upsert_node "CacheEntry"
              (identity_of V H R l.project_id (lookup_key V H R l) l.tool_name)
              kept
              c.graph
            ≡ (some n, c'.graph))
          × (c'.config ≡ c.config)
    unfolding store_exact_cache count_exact
    store_exact_cache_cases c c' e on exact room =
        let identity = identity_of V H R l.project_id (lookup_key V H R l) l.tool_name in
        elim (Option-cases ((R.upsert_node "CacheEntry" identity kept c.graph).0)) [
          | inl failed ↦ absurd (ground arith)
          | inr (n, stored) ↦ (n, ground arith, ground arith)
        ]

    is_fresh-IsStored :
        (c : CacheManager V H R) (e : CacheEntry V) (at_ : String)
        → IsStored e
        → c.config.ttl.enabled ≡ false
        → is_fresh V H c.config at_ e ≡ true
    unfolding is_fresh
    is_fresh-IsStored c e at_ s off = rw (s.3, off) refl

    -- While entries do not expire and the cache has room, what StoreExactCache stored with success is
    -- what CheckExactCache answers for the same arguments, at any time, without a change to the cache:
    -- a valid entry with the result, the confidence, the agent and the place that were stored.
    pub check_exact-store_exact :
        (c c' : CacheManager V H R) (at_ : String)
        → store_exact_cache V H R l (some o) confidence agent now c ≡ (true, c')
        → c.config.enabled ≡ true
        → c.config.exact.enabled ≡ true
        → c.config.ttl.enabled ≡ false
        → HasRoom c
        → W.Good c.graph
        → (e : CacheEntry V) × (check_exact_cache V H R l at_ c' ≡ (some (some e), c')) × IsStored e
    unfolding has_key
    check_exact-store_exact c c' at_ stored on exact off room good =
        let (n, upserted, config) = store_exact_cache_cases c c' stored on exact room in
        let identity = identity_of V H R l.project_id (lookup_key V H R l) l.tool_name in
        let (rest, found) =
          W.upsert-find "CacheEntry" identity kept c.graph c'.graph n upserted
            (identity_of-IsIdentity l.project_id (lookup_key V H R l) l.tool_name kept refl refl
              refl)
            good in
        let is = unmarshal-IsStored c.graph c'.graph n upserted in
        let fresh =
          is_fresh-IsStored c' (unmarshal_cache_entry V H n) at_ is
            (ap (λ g. g.ttl.enabled) config ∙ off) in
        (
          unmarshal_cache_entry V H n,
          check_exact_cache-fresh V H R l c' n rest at_ (ap (λ g. g.enabled) config ∙ on)
              (ap (λ g. g.exact.enabled) config ∙ exact) found fresh,
          is,
        )
