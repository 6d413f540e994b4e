-- ===== src/Cache/Purge.antt =====
-- What a purge of the cache removes and keeps.
use mathlib.Core.List.{Perm}
use mathlib.Core.List.Perm
use code_rag.Common.{Remaining, ◌++◌, ℕ, ◌+◌, List, ◌≡◌, length}
use code_rag.Graph.Types.{Values, Node}
use code_rag.Graph.Repository.{GraphRepository}
use code_rag.Cache.Types.{Host}
use code_rag.Cache.Groups.{IsOrdinary}
use code_rag.Cache.Eviction.{OldestLost}
use code_rag.Cache.Quota.{IsFull}
use code_rag.Cache.Manager.{CacheManager, ids_of, remove_ids}

module _ (V : Values) (H : Host V) (R : GraphRepository V) where
  -- What a purge did: of the entries that it found and that are not special, it keeps some and has removed
  -- the others, k of them, which are the oldest of their projects.
  abbrev pub IsPurged : ℕ → List (Node V) → ℕ → CacheManager V H R → CacheManager V H R → Type 0
  IsPurged max entries k c c' =
      (ordinary : List (Node V)) × (kept : List (Node V)) × (lost : List (Node V)) × Remaining
        (IsOrdinary V H R) entries ordinary
      × Perm (kept ++ lost) ordinary
      × OldestLost V H R max kept lost
      × IsFull V H R max kept lost
      × (length lost ≡ k)
      × ((remove_ids V H R (ids_of V H R lost) c).1.graph ≡ c'.graph)
      × (c'.exact_count ≡ length kept)
      × (c'.stats.invalidations ≡ c.stats.invalidations + k)
      × (c'.config ≡ c.config)
