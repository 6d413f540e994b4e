-- ===== src/Ctxstore/Digest.antt =====
-- The digests of developer context (internal/ctxstore/digest.go). The search that a prompt makes is an
-- argument: its results are the records that it found.
use Prim.Native.String.{◌++◌ as str_append}
use code_rag.Common.{
  ℕ, ℤ, String, Bool, not, Option, none, some, List, [], ◌∷◌, ◌++◌, ◌&&◌, ◌||◌, str_eq, str_mem,
  get_elem?, sort_by, str_ltb, if◌then◌else◌,
}
use code_rag.Ctxstore.Records.{Record, record_line, pack, group, is_rule, preference_lines}

abbrev pub preference_before : String × String → String × String → Bool
preference_before a b = str_ltb a.0 b.0

unfoldable pub session_lines : List Record → List (String × String) → String → List String
session_lines recs profile codebase =
    preference_lines (sort_by preference_before profile)
    ++ group (λ r. r.pinned) recs
    ++ group (λ r. not r.pinned && is_rule r) recs
    ++ group
        (λ r. not r.pinned && not (str_eq r.kind "decision") && not (str_eq r.kind "convention"))
        recs
    ++ (if str_eq codebase "" then [] else str_append codebase "\n" ∷ [])

-- SessionDigest, once the records are listed
unfoldable pub session_digest :
    Option (List Record) → ℤ → List (String × String) → String → Option String
session_digest none budget profile codebase = none
session_digest (some recs) budget profile codebase =
    some ((pack "Project context (codergag):\n" budget (session_lines recs profile codebase)).0)

unfoldable pub candidates : List String → List Record → List Record
candidates seen [] = []
candidates seen (r ∷ hits) =
    let rest = candidates seen hits in if r.pinned || str_mem r.id seen then rest else r ∷ rest

unfoldable pub lines_of : List Record → List String
lines_of [] = []
lines_of (r ∷ recs) = record_line r ∷ lines_of recs

-- the identifiers of cand[i] for the indices that were packed, which are all in range
unfoldable pub ids_at : List Record → List ℕ → List String
ids_at cand [] = []
ids_at cand (i ∷ idx) = elim (get_elem? cand i) [
  | none ↦ ids_at cand idx
  | some r ↦ r.id ∷ ids_at cand idx
]

-- PromptDigest, once the search is made
unfoldable pub prompt_digest :
    Option (List Record) → ℤ → List String → Option (String × List String)
prompt_digest none budget seen = none
prompt_digest (some hits) budget seen =
    let cand = candidates seen hits in
    let (out, idx) = pack "Relevant project context (codergag):\n" budget (lines_of cand) in
    some (out, ids_at cand idx)
