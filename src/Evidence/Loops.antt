-- ===== src/Evidence/Loops.antt =====
-- When the detector reports a loop, and that it reports what it found.
use code_rag.Common.{
  ℕ, ◌+◌, ◌<◌, ltb, String, false, List, [], ◌∷◌, ◌≡◌, ◌||◌, str_eq, length, if◌then◌else◌,
}
use code_rag.Graph.Types.{Values, Properties}
use code_rag.Evidence.Detector.{
  Clock, InterceptionResult, add_claims, looping_issues, report_loop, report_risk, claims_of,
  detect_missing_evidence, no_result, contradictions, unverified,
}

-- How often a claim is made.
abbrev pub times : String → List String → ℕ
times claim [] = 0
times claim (c ∷ claims) = (if str_eq c claim then 1 else 0) + times claim claims

-- The count of a claim in the groups: of its first group, and of all of them.
first : String → List (String × ℕ) → ℕ
first claim [] = 0
first claim ((c, n) ∷ groups) = if str_eq c claim then n else first claim groups

tally : String → List (String × ℕ) → ℕ
tally claim [] = 0
tally claim ((c, n) ∷ groups) = (if str_eq c claim then n else 0) + tally claim groups

-- A claim that is not blank and is made three times or more.
abbrev pub IsRepeated : List String → Type 0
IsRepeated claims = (claim : String) × (str_eq claim "" ≡ false) × (2 < times claim claims)

-- A flag is set where there is an issue, and only there.
abbrev pub IsFlagged : InterceptionResult → Type 0
IsFlagged r = (r.loop_detected || r.hallucination_risk) ≡ ltb 0 (length r.issues)

module _ (V : Values) (C : Clock) where
  -- The result before the last test and the advice.
  unfoldable found_by : List (Properties V) → List (Properties V) → InterceptionResult
  found_by hypotheses evidence = detect_missing_evidence V C hypotheses evidence (
      report_risk (unverified V C evidence) (
        report_risk (contradictions V C hypotheses) (
          report_loop (looping_issues (add_claims (claims_of V C hypotheses) [])) (no_result V C))))

  abbrev hasty : List String
  hasty = "More than 5 hypotheses recorded in the last 30 seconds - possible looping" ∷ []
