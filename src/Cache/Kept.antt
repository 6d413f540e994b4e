-- ===== src/Cache/Kept.antt =====
-- What the cache gives back of the privacy service's texts.
use code_rag.Common.{
  String, true, some, [], ◌∷◌, ◌≡◌, refl, ◌∙◌, ap, arith, str_eq_iff, str_mem, Option-cases, inl,
  inr,
}
use code_rag.Graph.Types.{Values, ValueLaws, Properties, Node, find_property, property}
use code_rag.Graph.Repository.{GraphRepository, RepositoryLaws, last_value, has_key, is_reserved}
use code_rag.Cache.Types.{Host, privacy_policy_key, pseudonym_snapshot_key}
use code_rag.Cache.Entries.{unmarshal_cache_entry}
use code_rag.Cache.Manager.{CacheManager, identity_of}
use code_rag.Cache.Lookups.{
  store_privacy_policy, get_privacy_policy, store_pseudonym_snapshot, get_pseudonym_snapshot,
  store_kept, get_kept, kept_text, kept_properties,
}
use code_rag.Cache.Stores.{identity_of-IsIdentity}

module _ (V : Values) (H : Host V) (R : GraphRepository V) (L : ValueLaws V) where
  open V use {text}

  module _ (W : RepositoryLaws V R) (tool key project json now : String) where
    abbrev held : Properties V
    held = kept_properties V H R key json now

    kept_text-stored :
        (w w' : R.World) (n : Node V)
        → R.upsert_node "CacheEntry" (identity_of V H R project tool tool) held w ≡ (some n, w')
        → kept_text V H R key n ≡ json
    unfolding kept_text unmarshal_cache_entry find_property is_reserved str_mem has_key last_value
    kept_text-stored w w' n e =
        let (old, there) =
          W.upsert-property "CacheEntry" (identity_of V H R project tool tool) held w w' n e
            "result" refl refl in
        let result : V.as_object (property V n.properties "result") ≡ some ((key, text json) ∷ []) =
          ap V.as_object there ∙ L.as_object-object ((key, text json) ∷ []) in
        ground (arith, str_eq_iff key key, L.as_text-text json)

    get_kept-store_kept :
        (c c' : CacheManager V H R)
        → store_kept V H R tool key project json now c ≡ (true, c')
        → c.config.enabled ≡ true
        → W.Good c.graph
        → get_kept V H R tool key project c' ≡ some json
    unfolding get_kept store_kept has_key
    get_kept-store_kept c c' e on good =
        let identity = identity_of V H R project tool tool in
        elim (Option-cases ((R.upsert_node "CacheEntry" identity held c.graph).0)) [
          | inl failed ↦ absurd (ground arith)
          | inr (n, stored) ↦
              let upserted : R.upsert_node "CacheEntry" identity held c.graph ≡ (some n, c'.graph) =
                ground arith in
              let (rest, found) =
                W.upsert-find "CacheEntry" identity held c.graph c'.graph n upserted
                  (identity_of-IsIdentity V H R L project tool tool held refl refl refl) good in
              let read = kept_text-stored c.graph c'.graph n upserted in
              let same : c'.config ≡ c.config = ground arith in ground arith
        ]

  -- With the cache switched on, a privacy policy that was stored with success is the one that is read
  -- back for its project, and so is a pseudonym snapshot.
  pub get_privacy-store_privacy :
      (W : RepositoryLaws V R) (project json now : String) (c c' : CacheManager V H R)
      → c.config.enabled ≡ true
      → W.Good c.graph
      → (store_privacy_policy V H R project json now c ≡ (true, c')
          → get_privacy_policy V H R project c' ≡ some json)
        × (store_pseudonym_snapshot V H R project json now c ≡ (true, c')
            → get_pseudonym_snapshot V H R project c' ≡ some json)
  unfolding store_privacy_policy get_privacy_policy store_pseudonym_snapshot get_pseudonym_snapshot
  get_privacy-store_privacy W project json now c c' on good = (
    λ e. get_kept-store_kept W privacy_policy_key "policy" project json now c c' e on good,
    λ e. get_kept-store_kept W pseudonym_snapshot_key "snapshot" project json now c c' e on good,
  )
