-- ===== src/Cache/Quota.antt =====
-- How many entries of each project purgeExact (internal/cache/manager.go) keeps.
use code_rag.Common.{
  if◌then◌else◌, All-take, ℕ, ◌<◌, length-drop, suc, ◌+◌, ◌≤◌, String, List, [], ◌∷◌, ◌++◌, ◌≡◌,
  ◌≢◌, refl, subst, arith, str_eq, str_eq_iff, length, take, drop, length-take, sort_by,
  sort_by-All, Bool-cases, inl, inr, All, All-drop, All-map,
}
use code_rag.Graph.Types.{Values, Node}
use code_rag.Graph.Repository.{GraphRepository}
use code_rag.Cache.Types.{Host}
use code_rag.Cache.Manager.{newer}
use code_rag.Cache.Eviction.{kept_of, lost_of, parts-All, others-apart}
use code_rag.Cache.Groups.{Group, project_of, IsSplit}

module _ (V : Values) (H : Host V) (R : GraphRepository V) (max : ℕ) where
  -- how many entries are of a project
  abbrev pub count_of : String → List (Node V) → ℕ
  count_of p [] = 0
  count_of p (n ∷ nodes) =
      let rest = count_of p nodes in if str_eq (project_of V H R n) p then suc rest else rest

  count_of-append :
      (p : String) (xs ys : List (Node V)) → count_of p (xs ++ ys) ≡ count_of p xs + count_of p ys
  count_of-append p [] ys = omega arith
  count_of-append p (x ∷ xs) ys = ground (arith, count_of-append p xs ys)

  count_of_own :
      (p : String) (xs : List (Node V))
      → All (λ n. project_of V H R n ≡ p) xs
      → count_of p xs ≡ length xs
  count_of_own p [] h = refl
  count_of_own p (x ∷ xs) h =
      ground (arith, str_eq_iff (project_of V H R x) p, count_of_own p xs h.1)

  count_of_other :
      (p : String) (xs : List (Node V)) → All (λ n. project_of V H R n ≢ p) xs → count_of p xs ≡ 0
  count_of_other p [] h = refl
  count_of_other p (x ∷ xs) h =
      ground (arith, str_eq_iff (project_of V H R x) p, count_of_other p xs h.1)

  -- A project keeps at most the given number of entries, and just as many where it loses one.
  abbrev pub IsFull : List (Node V) → List (Node V) → Type 0
  IsFull kept lost =
      (p : String) → (count_of p kept ≤ max) × (0 < count_of p lost → count_of p kept ≡ max)

  pub parts-IsFull :
      (groups : List (Group V H R))
      → IsSplit V H R groups
      → IsFull (kept_of V H R max groups) (lost_of V H R max groups)
  parts-IsFull [] h p = (omega arith, λ some_lost. absurd (omega arith))
  parts-IsFull ((q, entries) ∷ groups) ((apart, aparts), (own, owns)) p =
      let sorted = sort_by (newer V H R) entries in
      let kept = take max sorted in
      let lost = drop max sorted in
      let both = count_of-append p kept (kept_of V H R max groups) in
      let both' = count_of-append p lost (lost_of V H R max groups) in
      elim (Bool-cases (str_eq q p)) [
        | inl same ↦
            let is = (str_eq_iff q p).0 same in
            let Is : Node V → Type 0 = λ n. project_of V H R n ≡ p in
            let are =
              sort_by-All (newer V H R) Is entries
                (subst (λ x. All (λ n. project_of V H R n ≡ x) entries) is own) in
            let (other_kept, other_lost) =
              parts-All V H R max (λ n. project_of V H R n ≢ p) groups
                (subst (λ x. All (λ g. All (λ n. project_of V H R n ≢ x) g.1) groups) is
                  (others-apart V H R max q groups apart owns)) in
            let k = count_of_own p kept (All-take Is max sorted are) in
            let l = count_of_own p lost (All-drop Is max sorted are) in
            let ks = count_of_other p (kept_of V H R max groups) other_kept in
            let ls = count_of_other p (lost_of V H R max groups) other_lost in
            let taken = length-take max sorted in
            let dropped = length-drop max sorted in (omega arith, λ some_lost. omega arith)
        | inr differs ↦
            let IsNot : Node V → Type 0 = λ n. project_of V H R n ≢ p in
            let are_not = sort_by-All (newer V H R) IsNot entries (
              All-map (λ n. project_of V H R n ≡ q) IsNot (λ n is e. ground (arith, str_eq_iff q p))
                entries own) in
            let k = count_of_other p kept (All-take IsNot max sorted are_not) in
            let l = count_of_other p lost (All-drop IsNot max sorted are_not) in
            let (most, full) = parts-IsFull groups (aparts, owns) p in
            (omega arith, λ some_lost. omega (arith, full (omega arith)))
      ]
