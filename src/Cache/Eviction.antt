-- ===== src/Cache/Eviction.antt =====
-- Which entries purgeExact (internal/cache/manager.go) evicts: of each project the oldest ones.
use mathlib.Core.List.{Perm}
use mathlib.Core.List.Perm
use code_rag.Common.{
  take-drop, drop_all, All-take, All-both, Ordered-take-drop, swap_parts, ℕ, String, false, List,
  [], ◌∷◌, ◌++◌, ◌≡◌, ◌≢◌, refl, ◌∙◌, ◌⊎◌, sym, arith, ltb, str_eq_iff, str_ltb, str_ltb_asym,
  str_ltb_trans, length, take, drop, length-take, length-append, sort_by, sort_by-All, sort_by-perm,
  sort_by-Ordered, Ordered, Bool-cases, inl, inr, All, All-append, All-drop, All-map,
}
use code_rag.Graph.Types.{Values, Node}
use code_rag.Graph.Repository.{GraphRepository}
use code_rag.Cache.Types.{Host}
use code_rag.Cache.Entries.{get_string}
use code_rag.Cache.Manager.{newer, purge_project, purge_groups}
use code_rag.Cache.Groups.{Group, project_of, IsOwn, IsSplit, entries_of}

module _ (V : Values) (H : Host V) (R : GraphRepository V) (max : ℕ) where
  abbrev updated_at : Node V → String
  updated_at n = get_string V H n.properties "updated_at"

  -- The first was not updated before the second.
  abbrev pub IsNotOlder : Node V → Node V → Type 0
  IsNotOlder x y = str_ltb (updated_at x) (updated_at y) ≡ false

  abbrev pub kept_of : List (Group V H R) → List (Node V)
  kept_of [] = []
  kept_of ((p, entries) ∷ groups) = take max (sort_by (newer V H R) entries) ++ kept_of groups

  abbrev pub lost_of : List (Group V H R) → List (Node V)
  lost_of [] = []
  lost_of ((p, entries) ∷ groups) = drop max (sort_by (newer V H R) entries) ++ lost_of groups

  purge_project-parts :
      (entries : List (Node V))
      → purge_project V H R max entries ≡ (
        drop max (sort_by (newer V H R) entries),
        length (take max (sort_by (newer V H R) entries)),
      )
  unfolding purge_project
  purge_project-parts entries =
      let sorted = sort_by (newer V H R) entries in
      elim (Bool-cases (ltb max (length sorted))) [
        | inl over ↦ rw over (ground (arith, length-take max sorted))
        | inr within ↦ rw within (ground (arith, length-take max sorted, drop_all max sorted))
      ]

  pub purge_groups-parts :
      (groups : List (Group V H R))
      → purge_groups V H R max groups ≡ (lost_of groups, length (kept_of groups))
  unfolding purge_groups
  purge_groups-parts [] = refl
  purge_groups-parts ((p, entries) ∷ groups) =
      let sorted = sort_by (newer V H R) entries in
      rw (purge_project-parts entries, purge_groups-parts groups)
        (ground (arith, length-append (take max sorted) (kept_of groups)))

  pub parts-perm :
      (groups : List (Group V H R))
      → Perm (kept_of groups ++ lost_of groups) (entries_of V H R groups)
  parts-perm [] = Perm.rfl
  parts-perm ((p, entries) ∷ groups) =
      let sorted = sort_by (newer V H R) entries in
      Perm.trans (swap_parts (take max sorted) (drop max sorted) (kept_of groups) (lost_of groups))
        (rw (take-drop max sorted)
          (Perm.append (sort_by-perm (newer V H R) entries) (parts-perm groups)))

  sorted-Ordered : (entries : List (Node V)) → Ordered IsNotOlder (sort_by (newer V H R) entries)
  unfolding newer
  sorted-Ordered entries =
      sort_by-Ordered (newer V H R) IsNotOlder
        (λ x y e. ground (
          arith,
          str_eq_iff (updated_at x) (updated_at y),
          str_ltb_asym (updated_at x) (updated_at x),
          str_ltb_asym (updated_at y) (updated_at x),
        ))
        (λ x y e. ground (
          arith,
          str_eq_iff (updated_at x) (updated_at y),
          str_ltb_asym (updated_at x) (updated_at x),
        ))
        (λ x y z h k. str_ltb_trans (updated_at x) (updated_at y) (updated_at z) h k) entries

  -- What holds of all entries of the groups holds of those that are kept and of those that are lost.
  pub parts-All :
      (P : Node V → Type 0) (groups : List (Group V H R))
      → All (λ g. All P g.1) groups
      → All P (kept_of groups) × All P (lost_of groups)
  parts-All P [] h = (tt, tt)
  parts-All P ((p, entries) ∷ groups) h =
      let sorted = sort_by (newer V H R) entries in
      let all = sort_by-All (newer V H R) P entries h.0 in
      let (kept, lost) = parts-All P groups h.1 in
      (
        All-append P (take max sorted) (kept_of groups) (All-take P max sorted all) kept,
        All-append P (drop max sorted) (lost_of groups) (All-drop P max sorted all) lost,
      )

  -- No entry that is kept is older than one of its project that is lost.
  abbrev pub OldestLost : List (Node V) → List (Node V) → Type 0
  OldestLost kept lost =
      All (λ x. All (λ y. project_of V H R x ≡ project_of V H R y → IsNotOlder x y) lost) kept

  abbrev Fair : Node V → Node V → Type 0
  Fair x y = project_of V H R x ≡ project_of V H R y → IsNotOlder x y

  -- Entries of different projects say nothing of each other.
  apart-Fair :
      (p : String) (x : Node V) (ys : List (Node V))
      → (project_of V H R x ≡ p) × All (λ y. project_of V H R y ≢ p) ys
        ⊎ (project_of V H R x ≢ p) × All (λ y. project_of V H R y ≡ p) ys
      → All (Fair x) ys
  apart-Fair p x ys (inl (is, others)) =
      All-map (λ y. project_of V H R y ≢ p) (Fair x) (λ y n e. absurd (n (sym e ∙ is))) ys others
  apart-Fair p x ys (inr (n, are)) =
      All-map (λ y. project_of V H R y ≡ p) (Fair x) (λ y is e. absurd (n (e ∙ is))) ys are

  -- The entries of the other groups are not of this project.
  pub others-apart :
      (p : String) (groups : List (Group V H R))
      → All (λ g. p ≢ g.0) groups
      → All (IsOwn V H R) groups
      → All (λ g. All (λ n. project_of V H R n ≢ p) g.1) groups
  others-apart p [] h k = tt
  others-apart p ((q, entries) ∷ groups) h k = (
    All-map (λ n. project_of V H R n ≡ q) (λ n. project_of V H R n ≢ p) (λ n is e. h.0 (sym e ∙ is))
        entries k.0,
    others-apart p groups h.1 k.1,
  )

  pub parts-OldestLost :
      (groups : List (Group V H R))
      → IsSplit V H R groups
      → OldestLost (kept_of groups) (lost_of groups)
  parts-OldestLost [] h = tt
  parts-OldestLost ((p, entries) ∷ groups) ((apart, aparts), (own, owns)) =
      let Is : Node V → Type 0 = λ n. project_of V H R n ≡ p in
      let IsNot : Node V → Type 0 = λ n. project_of V H R n ≢ p in
      let sorted = sort_by (newer V H R) entries in
      let kept = take max sorted in
      let lost = drop max sorted in
      let losts = lost_of groups in
      let are = sort_by-All (newer V H R) Is entries own in
      let (other_kept, other_lost) = parts-All IsNot groups (others-apart p groups apart owns) in
      let near = Ordered-take-drop IsNotOlder max sorted (sorted-Ordered entries) in
      let All_fair : Node V → Type 0 = λ x. All (Fair x) (lost ++ losts) in
      All-append All_fair kept (kept_of groups)
        (All-map (λ x. All (IsNotOlder x) lost × Is x) All_fair
          (λ x h.
            All-append (Fair x) lost losts (All-map (IsNotOlder x) (Fair x) (λ y o e. o) lost h.0)
              (apart-Fair p x losts (inl (h.1, other_lost))))
          kept (All-both (λ x. All (IsNotOlder x) lost) Is kept near (All-take Is max sorted are)))
        (All-map (λ x. All (Fair x) losts × IsNot x) All_fair
          (λ x h.
            All-append (Fair x) lost losts
              (apart-Fair p x lost (inr (h.1, All-drop Is max sorted are))) h.0)
          (kept_of groups)
          (All-both (λ x. All (Fair x) losts) IsNot (kept_of groups)
            (parts-OldestLost groups (aparts, owns)) other_kept))
