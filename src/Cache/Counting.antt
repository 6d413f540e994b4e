-- ===== src/Cache/Counting.antt =====
-- What a lookup through the levels of the cache counts.
use code_rag.Common.{
  ℕ, ◌+◌, String, true, false, not, Option, none, some, List, [], ◌∷◌, ◌≡◌, refl, ◌∙◌, sym, ap,
  ◌||◌, arith, str_eq, Bool-cases, ◌⊎◌, inl, inr, if-true, if◌then◌else◌,
}
use code_rag.Graph.Types.{Values, Node}
use code_rag.Graph.Repository.{GraphRepository}
use code_rag.Cache.Types.{
  Host, CacheEntry, CacheStats, CacheStatus, cache_hit, cache_miss, cache_partial, stale,
  LookupResult, freshness_stale,
}
use code_rag.Cache.Entries.{unmarshal_cache_entry, is_fresh, is_special_cache_entry}
use code_rag.Cache.Manager.{
  Lookup, CacheManager, check_exact_cache, answer_exact, forget_exact, count_stat, increment_stat,
  stale_entry, identity_of, lookup_key,
}
use code_rag.Cache.Lookups.{answer_entry, check_cache, search_semantic, answer_of, status_only}
use code_rag.Cache.Semantic.{Arithmetic, SemanticCache}

-- What each answer adds to the counts.
abbrev pub counted_for : CacheStatus → CacheStats → CacheStats
counted_for cache_hit s = record s { exact_hits = s.exact_hits + 1 }
counted_for cache_miss s = record s { cache_misses = s.cache_misses + 1 }
counted_for cache_partial s = record s { semantic_hits = s.semantic_hits + 1 }
counted_for stale s = record s { stale_hits = s.stale_hits + 1 + 1 }

module _ (V : Values) (H : Host V) (R : GraphRepository V) where
  abbrev Reply : Type 0
  Reply = Option (Option (CacheEntry V)) × CacheManager V H R

  abbrev freshness_of : Option (Option (CacheEntry V)) → String
  freshness_of none = ""
  freshness_of (some none) = ""
  freshness_of (some (some e)) = e.freshness

  -- What an exact entry that is answered says of the counts.
  abbrev IsAnswer : CacheManager V H R → CacheManager V H R → Option (CacheEntry V) → Type 0
  IsAnswer c c' none = c'.stats ≡ c.stats
  IsAnswer c c' (some e) =
      ((str_eq e.freshness freshness_stale ≡ false) × (c'.stats ≡ c.stats))
      ⊎ ((str_eq e.freshness freshness_stale ≡ true)
          × (c'.stats ≡ increment_stat "stale_hits" c.stats))

  is_fresh-not_stale :
      (c : CacheManager V H R) (now : String) (e : CacheEntry V)
      → is_fresh V H c.config now e ≡ true
      → str_eq e.freshness freshness_stale ≡ false
  unfolding is_fresh
  is_fresh-not_stale c now e fresh = ground arith

  forget_exact-stats : (k : ℕ) (c : CacheManager V H R) → (forget_exact V H R k c).stats ≡ c.stats
  unfolding forget_exact
  forget_exact-stats k c = ground arith

  answer_exact-IsAnswer :
      (now : String) (n : Node V) (o : Option (CacheEntry V)) (c c' : CacheManager V H R)
      → answer_exact V H R now n c ≡ (some o, c')
      → IsAnswer c c' o
  unfolding answer_exact count_stat stale_entry
  answer_exact-IsAnswer now n none c c' e = absurd (ground arith)
  answer_exact-IsAnswer now n (some entry) c c' e =
      let found = unmarshal_cache_entry V H n in
      elim (Bool-cases (is_fresh V H c.config now found)) [
        | inl fresh ↦
            let answered : ◌≡◌ {A = Reply} (some (some found), c) (some (some entry), c') =
              rw fresh at e in
            let not_stale = is_fresh-not_stale c now found fresh in inl (ground arith, ground arith)
        | inr old ↦
            let (removed, graph') = R.remove_nodes (n.id ∷ []) c.graph in
            let c1 : CacheManager V H R = record c { graph = graph' } in
            elim (Bool-cases removed) [
              | inl gone ↦
                  let answered : ◌≡◌ {A = Reply}
                      (
                        some (some (stale_entry V H R)),
                        count_stat V H R "stale_hits"
                            (if is_special_cache_entry V H n then c1 else forget_exact V H R 1 c1),
                      )
                      (some (some entry), c') =
                    rw (old, gone) at e in
                  inr (
                    sym (ap (λ p. str_eq (freshness_of p.0) freshness_stale) answered),
                    sym (ap (λ p. p.1.stats) answered)
                        ∙ ap (increment_stat "stale_hits")
                            (ground (arith, forget_exact-stats 1 c1)),
                  )
              | inr left ↦ absurd (ground arith)
            ]
      ]

  from_none :
      (o : Option (CacheEntry V)) (c c' : CacheManager V H R)
      → ◌≡◌ {A = Reply} (some none, c) (some o, c')
      → IsAnswer c c' o
  from_none none c c' e = sym (ap (λ p. p.1.stats) e)
  from_none (some x) c c' e = absurd (ground arith)

  from_found :
      (now : String) (o : Option (CacheEntry V)) (c c' : CacheManager V H R)
      (found : Option (List (Node V)))
      → ◌≡◌ {A = Reply}
          (elim found [
            | none ↦ (none, c)
            | some [] ↦ (some none, c)
            | some (node ∷ _) ↦ answer_exact V H R now node c
          ])
          (some o, c')
      → IsAnswer c c' o
  from_found now o c c' none e = absurd (ground arith)
  from_found now o c c' (some []) e = from_none o c c' e
  from_found now o c c' (some (n ∷ rest)) e = answer_exact-IsAnswer now n o c c' e

  check_exact-IsAnswer :
      (l : Lookup V) (now : String) (o : Option (CacheEntry V)) (c c' : CacheManager V H R)
      → check_exact_cache V H R l now c ≡ (some o, c')
      → IsAnswer c c' o
  unfolding check_exact_cache
  check_exact-IsAnswer l now o c c' e =
      elim (Bool-cases (not c.config.enabled || not c.config.exact.enabled)) [
        | inl off ↦ from_none o c c' (rw off at e)
        | inr on ↦
            from_found now o c c'
              (R.find_nodes "CacheEntry"
                (identity_of V H R l.project_id (lookup_key V H R l) l.tool_name) c.graph)
              (rw on at e)
      ]

  abbrev Looked : Type 0
  Looked = Option (LookupResult V) × CacheManager V H R

  abbrev counts_of : CacheStats → Looked → CacheStats
  counts_of s (none, c) = s
  counts_of s (some answer, c) = counted_for answer.status s

  -- The counts in the reply are those for its status.
  entry-counted :
      (e : CacheEntry V) (c c1 : CacheManager V H R)
      → IsAnswer c c1 (some e)
      → (answer_entry V H R e c1).1.stats ≡ counted_for ((answer_entry V H R e c1).0.status) c.stats
  unfolding answer_entry count_stat increment_stat
  entry-counted e c c1 (inl (fresh, same)) = rw (fresh, same) refl
  entry-counted e c c1 (inr (old, once)) = rw (old, once) refl

  module _ (F : Arithmetic) where
    reply-counted :
        (l : Lookup V) (semantic : Option (SemanticCache F V)) (c c1 : CacheManager V H R)
        → c1.stats ≡ c.stats
        → (found : Option (CacheEntry V))
        → let reply : Looked = elim found [
          | some e ↦ (some (answer_of V H R cache_partial e), count_stat V H R "semantic_hits" c1)
          | none ↦ (some (status_only V H R cache_miss), count_stat V H R "cache_misses" c1)
        ] in
          reply.1.stats ≡ counts_of c.stats reply
    unfolding count_stat increment_stat
    reply-counted l semantic c c1 same none = rw same refl
    reply-counted l semantic c c1 same (some e) = rw same refl

    from_reply :
        (l : Lookup V) (semantic : Option (SemanticCache F V)) (answer : LookupResult V)
        (c c1 c' : CacheManager V H R) (exact : Option (Option (CacheEntry V)))
        → ((o : Option (CacheEntry V)) → exact ≡ some o → IsAnswer c c1 o)
        → ◌≡◌ {A = Looked}
            (elim exact [
              | none ↦ (none, c1)
              | some (some e) ↦ let (found, c2) = answer_entry V H R e c1 in (some found, c2)
              | some none ↦ elim (search_semantic V H R F c.config l semantic) [
                | some e ↦
                    (some (answer_of V H R cache_partial e), count_stat V H R "semantic_hits" c1)
                | none ↦ (some (status_only V H R cache_miss), count_stat V H R "cache_misses" c1)
              ]
            ])
            (some answer, c')
        → c'.stats ≡ counted_for answer.status c.stats
    from_reply l semantic answer c c1 c' none is e = absurd (ground arith)
    from_reply l semantic answer c c1 c' (some (some x)) is e =
        sym (ap (λ p. p.1.stats) e)
        ∙ entry-counted x c c1 (is (some x) refl)
        ∙ ap (counts_of c.stats) e
    from_reply l semantic answer c c1 c' (some none) is e =
        sym (ap (λ p. p.1.stats) e)
        ∙ reply-counted l semantic c c1 (is none refl) (search_semantic V H R F c.config l semantic)
        ∙ ap (counts_of c.stats) e

    -- Every lookup that CheckCache answers with the cache switched on adds one to the count of its kind of
    -- answer, and to no other count; but a stale answer is counted twice.
    pub check_cache_lem :
        (l : Lookup V) (now : String) (semantic : Option (SemanticCache F V))
        (answer : LookupResult V) (c c' : CacheManager V H R)
        → check_cache V H R F l now semantic c ≡ (some answer, c')
        → c.config.enabled ≡ true
        → c'.stats ≡ counted_for answer.status c.stats
    unfolding check_cache
    check_cache_lem l now semantic answer c c' e on =
        let (exact, c1) = check_exact_cache V H R l now c in
        from_reply l semantic answer c c1 c' exact
          (λ o eq. check_exact-IsAnswer l now o c c1 (λ i. (eq i, c1)))
          (if-true c.config.enabled _ _ _ on e)
