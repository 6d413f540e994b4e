-- ===== src/Ctxstore/Shown.antt =====
-- What the digests of internal/ctxstore/digest.go show, and which records they report.
use Prim.Native.String.{◌++◌ as str_append}
use mathlib.Core.List.{Perm}
use code_rag.Common.{
  ℕ, suc, ◌+◌, ◌≤◌, ℤ, pos_part, String, Bool, true, false, not, some, List, [], ◌∷◌, ◌++◌, map,
  ◌≡◌, ◌≢◌, ◌↔◌, refl, ◌∙◌, sym, ap, subst, ◌&&◌, ◌||◌, arith, str_eq, str_eq_iff, str_mem, str_ltb,
  str_ltb_asym, str_ltb_trans, get_elem?, sort_by, sort_by-perm, sort_by-Ordered, Ordered,
  Bool-cases, ◌⊎◌, inl, inr, Remaining, if◌then◌else◌,
}
use code_rag.Ctxstore.Records.{
  Record, estimate_tokens, record_line, pack, group, is_rule, preference_lines,
}
use code_rag.Ctxstore.Digest.{
  preference_before, session_lines, session_digest, candidates, lines_of, ids_at, prompt_digest,
}
use code_rag.Ctxstore.Budget.{pack-≤}
use code_rag.Ctxstore.Packed.{Picks, picked, digest_of, positions, pack-Picks}

-- A text made of a header and lines: each line is taken where it fits, in turn, and the whole is within
-- the budget.
abbrev pub IsDigest : String → ℤ → List String → String → List Bool → Type 0
IsDigest header budget lines out flags =
    Picks budget (estimate_tokens header) lines flags
    × (out ≡ digest_of header (picked lines flags))
    × (estimate_tokens out ≤ pos_part budget)

pack-IsDigest :
    (header : String) (budget : ℤ) (lines : List String)
    → (flags : List Bool) × IsDigest header budget lines (pack header budget lines).0 flags
      × ((pack header budget lines).1 ≡ positions 0 flags)
pack-IsDigest header budget lines =
    let (flags, picks, same) = pack-Picks header budget lines in
    (flags, (picks, ap (λ x. x.0) same, pack-≤ header budget lines), ap (λ x. x.1) same)

group-Remaining :
    (pred : Record → Bool) (P : Record → Type 0) (recs : List Record)
    → ((r : Record) → (pred r ≡ true) ↔ P r)
    → (rs : List Record) × Remaining P recs rs × (group pred recs ≡ map record_line rs)
unfolding group
group-Remaining pred P [] h = ([], Remaining.end, refl)
group-Remaining pred P (r ∷ recs) h =
    let (rs, left, same) = group-Remaining pred P recs h in
    elim (Bool-cases (pred r)) [
      | inl is ↦
          (r ∷ rs, Remaining.stays ((h r).0 is) left, rw is (ap (λ t. record_line r ∷ t) same))
      | inr other ↦ (rs, Remaining.gone (λ p. ground (arith, (h r).1 p)) left, rw other same)
    ]

-- the line of a preference
abbrev pub preference_line : String × String → String
preference_line (k, v) =
    str_append "- preference " (str_append k (str_append ": " (str_append v "\n")))

preference_lines-map :
    (profile : List (String × String)) → preference_lines profile ≡ map preference_line profile
unfolding preference_lines
preference_lines-map [] = refl
preference_lines-map ((k, v) ∷ profile) =
    ap (λ t. preference_line (k, v) ∷ t) (preference_lines-map profile)

-- The lines of a session digest: the preferences, each once, with no key before an earlier one; the records,
-- each once, pinned ones first, then the decisions and conventions, then the others, each group in the
-- order in which they are listed; and the codebase where it is described.
abbrev pub AreLines : List Record → List (String × String) → String → List String → Type 0
AreLines recs profile codebase lines =
    (prefs : List (String × String)) × (pinned : List Record) × (rules : List Record)
    × (others : List Record) × Perm prefs profile
    × Ordered (λ a b. str_ltb b.0 a.0 ≡ false) prefs
    × Remaining (λ r. r.pinned ≡ true) recs pinned
    × Remaining (λ r. (r.pinned ≡ false) × ((r.kind ≡ "decision") ⊎ (r.kind ≡ "convention"))) recs
        rules
    × Remaining (λ r. (r.pinned ≡ false) × (r.kind ≢ "decision") × (r.kind ≢ "convention")) recs
        others
    × (lines
        ≡ map preference_line prefs
          ++ map record_line pinned
          ++ map record_line rules
          ++ map record_line others
          ++ (if str_eq codebase "" then [] else str_append codebase "\n" ∷ []))

session_lines-AreLines :
    (recs : List Record) (profile : List (String × String)) (codebase : String)
    → AreLines recs profile codebase (session_lines recs profile codebase)
unfolding session_lines
session_lines-AreLines recs profile codebase =
    let prefs = sort_by preference_before profile in
    let (pinned, p, same_p) =
      group-Remaining (λ r. r.pinned) (λ r. r.pinned ≡ true) recs (λ r. (λ e. e, λ e. e)) in
    let (rules, q, same_q) =
      group-Remaining (λ r. not r.pinned && is_rule r)
        (λ r. (r.pinned ≡ false) × ((r.kind ≡ "decision") ⊎ (r.kind ≡ "convention"))) recs
        (λ r. ground (arith, str_eq_iff r.kind "decision", str_eq_iff r.kind "convention")) in
    let (others, o, same_o) =
      group-Remaining
        (λ r. not r.pinned && not (str_eq r.kind "decision") && not (str_eq r.kind "convention"))
        (λ r. (r.pinned ≡ false) × (r.kind ≢ "decision") × (r.kind ≢ "convention")) recs
        (λ r. ground (arith, str_eq_iff r.kind "decision", str_eq_iff r.kind "convention")) in
    (
      prefs,
      pinned,
      rules,
      others,
      sort_by-perm preference_before profile,
      sort_by-Ordered preference_before (λ a b. str_ltb b.0 a.0 ≡ false)
          (λ a b e. str_ltb_asym a.0 b.0 e) (λ a b e. e)
          (λ a b c h k. str_ltb_trans c.0 b.0 a.0 k h) profile,
      p,
      q,
      o,
      rw (preference_lines-map prefs, same_p, same_q, same_o) refl,
    )

-- A session digest is a header and lines, each taken where it still fits the budget and skipped where it
-- does not, or nothing where none is taken; its estimate is within the budget, or 0 for one below 0.
-- The lines are the preferences by their keys, the pinned records, the decisions and conventions, the
-- other records, each record once, and the codebase where it is described.
pub session_digest_lem :
    (recs : List Record) (budget : ℤ) (profile : List (String × String)) (codebase out : String)
    → session_digest (some recs) budget profile codebase ≡ some out
    → (lines : List String) × AreLines recs profile codebase lines
      × ((flags : List Bool) × IsDigest "Project context (codergag):\n" budget lines out flags)
unfolding session_digest
session_digest_lem recs budget profile codebase out e =
    let lines = session_lines recs profile codebase in
    let header : String = "Project context (codergag):\n" in
    let same : (pack header budget lines).0 ≡ out = ground arith in
    let (flags, digest, _) = pack-IsDigest header budget lines in
    (
      lines,
      session_lines-AreLines recs profile codebase,
      (flags, subst (λ t. IsDigest header budget lines t flags) same digest),
    )

-- A record that a prompt digest can show: neither pinned nor seen.
abbrev pub IsNew : List String → Record → Type 0
IsNew seen r = (r.pinned ≡ false) × (str_mem r.id seen ≡ false)

candidates-Remaining :
    (seen : List String) (hits : List Record) → Remaining (IsNew seen) hits (candidates seen hits)
unfolding candidates
candidates-Remaining seen [] = Remaining.end
candidates-Remaining seen (r ∷ hits) = elim (Bool-cases (r.pinned || str_mem r.id seen)) [
  | inl known ↦ rw known (Remaining.gone (λ n. ground arith) (candidates-Remaining seen hits))
  | inr new ↦ rw new (Remaining.stays (ground arith) (candidates-Remaining seen hits))
]

lines_of-map : (recs : List Record) → lines_of recs ≡ map record_line recs
unfolding lines_of
lines_of-map [] = refl
lines_of-map (r ∷ recs) = ap (λ t. record_line r ∷ t) (lines_of-map recs)

-- The identifiers at the chosen positions are those of the chosen records.
ids_at-picked :
    (budget : ℤ) (used i : ℕ) (all recs : List Record) (flags : List Bool)
    → ((j : ℕ) → get_elem? all (i + j) ≡ get_elem? recs j)
    → Picks budget used (map record_line recs) flags
    → ids_at all (positions i flags) ≡ map (λ r. r.id) (picked recs flags)
unfolding ids_at
ids_at-picked budget used i all [] [] at_ h = refl
ids_at-picked budget used i all [] (b ∷ flags) at_ h = absurd h
ids_at-picked budget used i all (r ∷ recs) [] at_ h = absurd h
ids_at-picked budget used i all (r ∷ recs) (true ∷ flags) at_ h =
    let here : get_elem? all i ≡ some r = ap (get_elem? all) (omega arith) ∙ at_ 0 in
    let rest =
      ids_at-picked budget (used + estimate_tokens (record_line r)) (suc i) all recs flags
        (λ j. ap (get_elem? all) (omega arith) ∙ at_ (suc j)) h.1 in
    rw (here, ids_at) (ap (λ t. r.id ∷ t) rest)
ids_at-picked budget used i all (r ∷ recs) (false ∷ flags) at_ h =
    ids_at-picked budget used (suc i) all recs flags
      (λ j. ap (get_elem? all) (omega arith) ∙ at_ (suc j)) h.1

-- A prompt digest is a header and the lines of records that its search found, which are not pinned and were
-- not seen: each is taken where it still fits the budget and skipped where it does not, and there is nothing
-- where none is taken. It reports the identifiers of exactly the records whose lines are taken, in order,
-- and its estimate is within the budget, or 0 for one below 0.
pub prompt_digest_lem :
    (hits : List Record) (budget : ℤ) (seen ids : List String) (out : String)
    → prompt_digest (some hits) budget seen ≡ some (out, ids)
    → (new : List Record) × Remaining (IsNew seen) hits new
      × ((flags : List Bool) × IsDigest "Relevant project context (codergag):\n" budget
            (map record_line new)
            out
            flags
          × (ids ≡ map (λ r. r.id) (picked new flags)))
unfolding prompt_digest
prompt_digest_lem hits budget seen ids out e =
    let new = candidates seen hits in
    let header : String = "Relevant project context (codergag):\n" in
    let lines = map record_line new in
    let (flags, digest, at_) = pack-IsDigest header budget lines in
    let packed = lines_of-map new in
    let same : (pack header budget lines).0 ≡ out =
      subst (λ t. (pack header budget t).0 ≡ out) packed (ground arith) in
    let same_ids : ids_at new (pack header budget lines).1 ≡ ids =
      subst (λ t. ids_at new (pack header budget t).1 ≡ ids) packed (ground arith) in
    (
      new,
      candidates-Remaining seen hits,
      (
        flags,
        subst (λ t. IsDigest header budget lines t flags) same digest,
        sym same_ids
            ∙ ap (ids_at new) at_
            ∙ ids_at-picked budget (estimate_tokens header) 0 new new flags
                (λ j. ap (get_elem? new) (omega arith)) digest.0,
      ),
    )
