-- ===== src/Evidence/Detector.antt =====
-- AntiLoopDetector (internal/services/anti_loop.go). Claims are normalised by strings.ToLower, time.Parse
-- and the comparison of times are parameters too. The groups of equal claims come in the order of their
-- first claims, where Go takes them in any.
use Prim.Native.Char.{code}
use Prim.Native.String.{◌++◌ as str_append}
use code_rag.Common.{
  ℕ, ◌+◌, ◌*◌, ◌^◌, ◌==◌, ℤ, pos, ltb_ℤ, ltb, String, Bool, true, false, not, Option, none, some,
  List, [], ◌∷◌, ◌++◌, ◌&&◌, ◌||◌, str_eq, trim_space, itoa, length, if◌then◌else◌,
}
use code_rag.Graph.Types.{Values, Properties, property}
use code_rag.Graph.Repository.{GraphRepository}
use code_rag.Evidence.Records.{
  Reply, ok, service_error, failed, subject_of, subject_message, get_neighbors,
}

-- strings.ToLower, time.Parse for RFC 3339, Time.After and Time.Add of some seconds back.
pub record Clock : Type 1 where
  pub Time : Type 0
  pub to_lower : String → String
  pub parse_time : String → Option Time
  pub is_after : Time → Time → Bool
  pub seconds_before : ℕ → Time → Time

pub record InterceptionResult : Type 0 where
  pub loop_detected : Bool
  pub hallucination_risk : Bool
  pub issues : List String
  pub recommendations : List String

unfoldable pub has_prefix : String → String → Bool
has_prefix s String.[] = true
has_prefix String.[] (String.◌∷◌ d p) = false
has_prefix (String.◌∷◌ c s) (String.◌∷◌ d p) = code c == code d && has_prefix s p

-- strings.Contains
unfoldable pub contains : String → String → Bool
contains String.[] p = has_prefix "" p
contains (String.◌∷◌ c s) p = has_prefix (String.◌∷◌ c s) p || contains s p

abbrev pub markers : List (String × String)
markers =
    ("is a constructor", "is not a constructor")
    ∷ ("validates", "does not validate")
    ∷ ("encrypts", "does not encrypt")
    ∷ ("decrypts", "does not decrypt")
    ∷ ("calls", "does not call")
    ∷ ("returns", "does not return")
    ∷ []

unfoldable pub any_marker : String → String → List (String × String) → Bool
any_marker a b [] = false
any_marker a b ((said, denied) ∷ rest) =
    (contains a said && contains b denied)
    || (contains a denied && contains b said)
    || any_marker a b rest

unfoldable pub claims_contradict : String → String → Bool
claims_contradict a b = not (str_eq a "") && not (str_eq b "") && any_marker a b markers

-- byClaim[claim] = append(byClaim[claim], h), of which only the length is read
unfoldable pub add_claim : String → List (String × ℕ) → List (String × ℕ)
add_claim claim [] = (claim, 1) ∷ []
add_claim claim ((c, n) ∷ groups) =
    if str_eq c claim then (c, n + 1) ∷ groups else (c, n) ∷ add_claim claim groups

unfoldable pub add_claims : List String → List (String × ℕ) → List (String × ℕ)
add_claims [] groups = groups
add_claims (claim ∷ claims) groups =
    add_claims claims (if str_eq claim "" then groups else add_claim claim groups)

unfoldable pub looping_issues : List (String × ℕ) → List String
looping_issues [] = []
looping_issues ((claim, n) ∷ groups) =
    let rest = looping_issues groups in
    if ltb 2 n
    then str_append "Looping detected: same claim '" (
        str_append claim
          (str_append "' recorded " (str_append (itoa n) " times for the same subject")))
      ∷ rest
    else rest

-- 0.7 and 0.9
abbrev pub high : ℤ
high = pos (6305039478318694 * 2 ^ 1021)

abbrev pub very_high : ℤ
very_high = pos (8106479329266893 * 2 ^ 1021)

-- A flag that is set where there are issues, which come after those before.
unfoldable pub report_loop : List String → InterceptionResult → InterceptionResult
report_loop [] result = result
report_loop (i ∷ issues) result = record result {
  loop_detected = true;
  issues = result.issues ++ i ∷ issues;
}

unfoldable pub report_risk : List String → InterceptionResult → InterceptionResult
report_risk [] result = result
report_risk (i ∷ issues) result = record result {
  hallucination_risk = true;
  issues = result.issues ++ i ∷ issues;
}

module _ (V : Values) (C : Clock) where
  open V use {as_text, as_number}

  -- mapStr
  unfoldable pub map_str : Properties V → String → String
  map_str m key = elim (as_text (property V m key)) [ none ↦ "" | some s ↦ s ]

  unfoldable pub claims_of : List (Properties V) → List String
  claims_of [] = []
  claims_of (h ∷ hypotheses) = C.to_lower (trim_space (map_str h "claim")) ∷ claims_of hypotheses

  unfoldable pub detect_looping : List (Properties V) → InterceptionResult → InterceptionResult
  detect_looping hypotheses result =
      report_loop (looping_issues (add_claims (claims_of hypotheses) [])) result

  abbrev pub confidence_of : Properties V → ℤ
  confidence_of m = elim (as_number (property V m "confidence")) [ none ↦ pos 0 | some x ↦ x ]

  -- the inner loop of detectContradictions
  unfoldable pub contradictions_with : Properties V → List (Properties V) → List String
  contradictions_with h [] = []
  contradictions_with h (k ∷ hypotheses) =
      let claim1 = C.to_lower (map_str h "claim") in
      let claim2 = C.to_lower (map_str k "claim") in
      let rest = contradictions_with h hypotheses in
      if claims_contradict claim1 claim2
        && (ltb_ℤ high (confidence_of h) || ltb_ℤ high (confidence_of k))
      then str_append "Contradictory high-confidence hypotheses: '"
          (str_append claim1 (str_append "' vs '" (str_append claim2 "'")))
        ∷ rest
      else rest

  unfoldable pub contradictions : List (Properties V) → List String
  contradictions [] = []
  contradictions (h ∷ hypotheses) = contradictions_with h hypotheses ++ contradictions hypotheses

  unfoldable pub detect_contradictions :
      List (Properties V) → InterceptionResult → InterceptionResult
  detect_contradictions hypotheses result = report_risk (contradictions hypotheses) result

  unfoldable pub unverified : List (Properties V) → List String
  unverified [] = []
  unverified (e ∷ evidence) =
      let rest = unverified evidence in
      if ltb_ℤ very_high (confidence_of e)
        && str_eq (map_str e "source") "manual"
        && str_eq (map_str e "method") "manual"
      then str_append "High-confidence evidence without independent verification ("
          (str_append (map_str e "description") ")")
        ∷ rest
      else rest

  unfoldable pub detect_high_confidence_unverified :
      List (Properties V) → InterceptionResult → InterceptionResult
  detect_high_confidence_unverified evidence result = report_risk (unverified evidence) result

  unfoldable pub detect_missing_evidence :
      List (Properties V) → List (Properties V) → InterceptionResult → InterceptionResult
  detect_missing_evidence hypotheses evidence result =
      if ltb 0 (length hypotheses) && length evidence == 0
      then report_risk ("Hypotheses recorded without supporting evidence" ∷ []) result
      else result

  -- how many hypotheses have a time after the cutoff
  unfoldable pub recent : C.Time → List (Properties V) → ℕ
  recent cutoff [] = 0
  recent cutoff (h ∷ hypotheses) =
      let rest = recent cutoff hypotheses in
      let stamp = map_str h "timestamp" in
      if str_eq stamp "" then rest else elim (C.parse_time stamp) [
        | none ↦ rest
        | some t ↦ if C.is_after t cutoff then rest + 1 else rest
      ]

  unfoldable pub detect_stale_claims :
      C.Time → List (Properties V) → InterceptionResult → InterceptionResult
  detect_stale_claims now hypotheses result =
      if ltb 5 (recent (C.seconds_before 30 now) hypotheses)
      then report_loop
          ("More than 5 hypotheses recorded in the last 30 seconds - possible looping" ∷ []) result
      else result

  abbrev pub advice : List String
  advice =
      "Pause and verify findings against decompiled output or original binary"
      ∷ "Use codergag_get_evidence to review existing evidence before adding new claims"
      ∷ "Use codergag_get_related_code to cross-check function relationships" ∷ []

  unfoldable pub advise : InterceptionResult → InterceptionResult
  advise result =
      if ltb 0 (length result.issues)
      then record result { recommendations = result.recommendations ++ advice }
      else result

  abbrev pub no_result : InterceptionResult
  no_result = record {
    loop_detected = false;
    hallucination_risk = false;
    issues = [];
    recommendations = [];
  }

  -- CheckInterception, once the hypotheses and the evidence are read
  unfoldable pub judge : C.Time → List (Properties V) → List (Properties V) → InterceptionResult
  judge now hypotheses evidence =
      let looping = detect_looping hypotheses no_result in
      let contradicted = detect_contradictions hypotheses looping in
      let unsure = detect_high_confidence_unverified evidence contradicted in
      let bare = detect_missing_evidence hypotheses evidence unsure in
      advise (detect_stale_claims now hypotheses bare)

  module _ (R : GraphRepository V) where
    unfoldable pub check_interception :
        String → String → C.Time → R.World → Reply InterceptionResult
    check_interception project subject now w = elim (subject_of V R project subject w) [
      | none ↦ service_error subject_message
      | some _ ↦ elim (get_neighbors V R subject "SUSPECTED_AS" "Hypothesis" w) [
        | none ↦ failed
        | some hypotheses ↦ elim (get_neighbors V R subject "REFERENCES" "Evidence" w) [
          | none ↦ failed
          | some evidence ↦ ok (judge now hypotheses evidence)
        ]
      ]
    ]

    unfoldable pub check_interception_by_address :
        String → String → String → C.Time → R.World → Reply InterceptionResult
    check_interception_by_address project binary address now w =
        elim (R.find_nodes "BinaryFunction"
          (("project_id", V.text project)
            ∷ ("binary_id", V.text binary)
            ∷ ("address", V.text address)
            ∷ [])
          w) [
            | none ↦ service_error "binary function is absent or belongs to another project"
            | some [] ↦ service_error "binary function is absent or belongs to another project"
            | some (n ∷ _) ↦ check_interception project n.id now w
          ]
