-- ===== src/Cache/Groups.antt =====
-- The groups of purgeExact (internal/cache/manager.go): each entry that is not the privacy service's once, under
-- its project, and no project twice.
use mathlib.Core.List.{Perm, append_assoc, perm_middle}
use mathlib.Core.List.Perm
use code_rag.Common.{
  String, false, List, [], ◌∷◌, ◌++◌, ◌≡◌, ◌≢◌, refl, sym, subst, arith, str_eq, str_eq_iff,
  Bool-cases, inl, inr, All, All-append, Ordered, Remaining,
}
use code_rag.Graph.Types.{Values, Node}
use code_rag.Graph.Repository.{GraphRepository}
use code_rag.Cache.Types.{Host}
use code_rag.Cache.Entries.{get_string, is_special_cache_entry}
use code_rag.Cache.Manager.{add_to_project, group_entries}

module _ (V : Values) (H : Host V) (R : GraphRepository V) where
  abbrev pub Group : Type 0
  Group = String × List (Node V)

  abbrev pub project_of : Node V → String
  project_of n = get_string V H n.properties "project_id"

  abbrev pub IsOrdinary : Node V → Type 0
  IsOrdinary n = is_special_cache_entry V H n ≡ false

  -- A group's entries are of its project.
  abbrev pub IsOwn : Group → Type 0
  IsOwn (p, entries) = All (λ n. project_of n ≡ p) entries

  -- Each project has one group.
  abbrev pub IsSplit : List Group → Type 0
  IsSplit groups = Ordered (λ g h. g.0 ≢ h.0) groups × All IsOwn groups

  abbrev pub entries_of : List Group → List (Node V)
  entries_of [] = []
  entries_of ((p, entries) ∷ groups) = entries ++ entries_of groups

  add_to_project-All :
      (P : Group → Type 0) (n : Node V)
      → P (project_of n, n ∷ [])
      → ((entries : List (Node V))
          → P (project_of n, entries)
          → P (project_of n, entries ++ n ∷ []))
      → (groups : List Group) → All P groups
      → All P (add_to_project V H R (project_of n) n groups)
  unfolding add_to_project
  add_to_project-All P n one more [] h = (one, tt)
  add_to_project-All P n one more ((q, entries) ∷ groups) h =
      elim (Bool-cases (str_eq q (project_of n))) [
        | inl same ↦
            let is = (str_eq_iff q (project_of n)).0 same in
            rw same (
              subst (λ p. P (p, entries ++ n ∷ [])) (sym is)
                  (more entries (subst (λ p. P (p, entries)) is h.0)),
              h.1,
            )
        | inr differs ↦ rw differs (h.0, add_to_project-All P n one more groups h.1)
      ]

  add_to_project-Ordered :
      (n : Node V) (groups : List Group)
      → Ordered (λ g h. g.0 ≢ h.0) groups
      → Ordered (λ g h. g.0 ≢ h.0) (add_to_project V H R (project_of n) n groups)
  unfolding add_to_project
  add_to_project-Ordered n [] h = (tt, tt)
  add_to_project-Ordered n ((q, entries) ∷ groups) h = elim (Bool-cases (str_eq q (project_of n))) [
    | inl same ↦ rw same h
    | inr differs ↦ rw differs (
      add_to_project-All (λ g. q ≢ g.0) n (λ e. ground (arith, str_eq_iff q (project_of n)))
          (λ es k. k) groups h.0,
      add_to_project-Ordered n groups h.1,
    )
  ]

  add_to_project-perm :
      (n : Node V) (groups : List Group)
      → Perm (entries_of (add_to_project V H R (project_of n) n groups)) (n ∷ entries_of groups)
  unfolding add_to_project
  add_to_project-perm n [] = Perm.rfl
  add_to_project-perm n ((q, entries) ∷ groups) = elim (Bool-cases (str_eq q (project_of n))) [
    | inl same ↦
        rw (same, append_assoc entries (n ∷ []) (entries_of groups))
          (perm_middle entries (entries_of groups))
    | inr differs ↦ rw differs (
        Perm.trans (Perm.append_left entries (add_to_project-perm n groups))
          (perm_middle entries (entries_of groups)))
  ]

  add_to_project-IsSplit :
      (n : Node V) (groups : List Group)
      → IsSplit groups
      → IsSplit (add_to_project V H R (project_of n) n groups)
  add_to_project-IsSplit n groups (apart, own) = (
    add_to_project-Ordered n groups apart,
    add_to_project-All IsOwn n (refl, tt)
        (λ entries h. All-append (λ m. project_of m ≡ project_of n) entries (n ∷ []) h (refl, tt))
        groups own,
  )

  -- The entries that are not special, each in one group.
  pub group_entries-IsSplit :
      (entries : List (Node V)) (groups : List Group)
      → IsSplit groups
      → IsSplit (group_entries V H R entries groups)
        × ((ordinary : List (Node V)) × Remaining IsOrdinary entries ordinary
            × Perm
                (entries_of (group_entries V H R entries groups))
                (ordinary ++ entries_of groups))
  unfolding group_entries
  group_entries-IsSplit [] groups h = (h, ([], Remaining.end, Perm.rfl))
  group_entries-IsSplit (n ∷ entries) groups h = elim (Bool-cases (is_special_cache_entry V H n)) [
    | inl special ↦
        let (split, (ordinary, left, same)) = group_entries-IsSplit entries groups h in
        rw special (split, (ordinary, Remaining.gone (λ o. ground arith) left, same))
    | inr is ↦
        let more = add_to_project V H R (project_of n) n groups in
        let (split, (ordinary, left, same)) =
          group_entries-IsSplit entries more (add_to_project-IsSplit n groups h) in
        rw is (
          split,
          (
            n ∷ ordinary,
            Remaining.stays is left,
            Perm.trans same (
                Perm.trans (Perm.append_left ordinary (add_to_project-perm n groups))
                  (perm_middle ordinary (entries_of groups))),
          ),
        )
  ]
