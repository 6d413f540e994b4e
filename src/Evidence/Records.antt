-- ===== src/Evidence/Records.antt =====
-- EvidenceService (internal/services/evidence.go) over a graph repository. A confidence is a float64, the
-- integer that it is in units of 2^-1074; one given as a Go int, which JSON does not make, is left out. The
-- time of a call is an argument.
use code_rag.Common.{
  ◌^◌, ℤ, pos, ltb_ℤ, String, Bool, true, false, not, Option, none, some, List, [], ◌∷◌, ◌||◌,
  str_eq, if◌then◌else◌,
}
use code_rag.Graph.Types.{Values, Properties, Node, Edge, find_property, property, put_properties}
use code_rag.Graph.Edges.{dir_out}
use code_rag.Graph.Repository.{GraphRepository}

-- What a call returns: an answer, a ServiceError with its message, or an error of the repository.
pub data Reply (A : Type 0) : Type 0 where
  ok : A → Reply A
  service_error : String → Reply A
  failed : Reply A

abbrev pub range_message : String
range_message = "confidence must be between 0 and 1"

abbrev pub subject_message : String
subject_message = "subject is absent or belongs to another project"

module _ (V : Values) (R : GraphRepository V) where
  open V use {text, number, as_text, as_number}

  -- Present
  unfoldable pub present : Node V → Properties V
  present n = put_properties V n.properties (("id", text n.id) ∷ ("kind", text n.kind) ∷ [])

  unfoldable pub option_text : Properties V → String → String → String
  option_text opts key default = elim (find_property V opts key) [
    | none ↦ default
    | some v ↦ elim (as_text v) [ none ↦ default | some s ↦ s ]
  ]

  unfoldable pub is_text : V.Value → String → Bool
  is_text v s = elim (as_text v) [ none ↦ false | some t ↦ str_eq t s ]

  unfoldable pub in_range : ℤ → Bool
  in_range confidence = not (ltb_ℤ confidence (pos 0) || ltb_ℤ (pos (2 ^ 1074)) confidence)

  -- the subject, where it is in the project
  unfoldable pub subject_of : String → String → R.World → Option (Node V)
  subject_of project id w = elim (R.get_node w id) [
    | none ↦ none
    | some n ↦ if is_text (property V n.properties "project_id") project then some n else none
  ]

  unfoldable pub record_hypothesis :
      String
      → String
      → String
      → ℤ
      → Properties V
      → String
      → R.World
      → Reply (Properties V) × R.World
  record_hypothesis project subject claim confidence opts now w =
      let state = option_text opts "state" "HYPOTHESIS" in
      let (stored, w') =
        R.upsert_node "Hypothesis"
          (("project_id", text project) ∷ ("subject_id", text subject) ∷ ("claim", text claim) ∷ [])
          (("state", text state)
            ∷ ("confidence", number confidence)
            ∷ (
              "confidence_source",
              text (option_text opts "confidence_source" "analyst assessment"),
            )
            ∷ ("analyst", text (option_text opts "analyst" "unknown"))
            ∷ ("agent", text (option_text opts "agent" "unknown"))
            ∷ ("method", text (option_text opts "method" "manual"))
            ∷ ("timestamp", text now)
            ∷ [])
          w in
      if in_range confidence
      then elim (subject_of project subject w) [
        | none ↦ (service_error subject_message, w)
        | some _ ↦ elim stored [
          | none ↦ (failed, w')
          | some n ↦
              let linked =
                R.link "SUSPECTED_AS" subject n.id
                  (some (("confidence", number confidence) ∷ ("state", text state) ∷ [])) w' in
              (ok (present n), linked.1)
        ]
      ]
      else (service_error range_message, w)

  -- opts["confidence"].(float64), which must be in range where it is given
  unfoldable pub option_confidence : Properties V → Option ℤ
  option_confidence opts = elim (find_property V opts "confidence") [
    | none ↦ none
    | some v ↦ as_number v
  ]

  unfoldable pub option_in_range : Option ℤ → Bool
  option_in_range none = true
  option_in_range (some c) = in_range c

  unfoldable pub option_or_one : Option ℤ → ℤ
  option_or_one none = pos (2 ^ 1074)
  option_or_one (some c) = c

  -- the link to the hypothesis that the evidence supports, if one is named
  unfoldable pub link_support : Properties V → ℤ → Node V → R.World → R.World
  link_support opts confidence n w =
      let hypothesis = option_text opts "supports_hypothesis_id" "" in
      if str_eq hypothesis ""
      then w
      else (R.link "SUPPORTED_BY" hypothesis n.id (some (("confidence", number confidence) ∷ []))
          w).1

  unfoldable pub record_evidence :
      String → String → String → Properties V → String → R.World → Reply (Properties V) × R.World
  record_evidence project subject description opts now w =
      let given = option_confidence opts in
      let confidence = option_or_one given in
      let (stored, w') =
        R.upsert_node "Evidence"
          (("project_id", text project)
            ∷ ("subject_id", text subject)
            ∷ ("description", text description)
            ∷ ("source", text (option_text opts "source" "manual"))
            ∷ [])
          (("state", text (option_text opts "kind" "OBSERVATION"))
            ∷ ("confidence", number confidence)
            ∷ ("agent", text (option_text opts "agent" "unknown"))
            ∷ ("method", text (option_text opts "method" "manual"))
            ∷ ("timestamp", text now)
            ∷ [])
          w in
      if option_in_range given
      then elim (subject_of project subject w) [
        | none ↦ (service_error subject_message, w)
        | some _ ↦ elim stored [
          | none ↦ (failed, w')
          | some n ↦
              let linked =
                R.link "REFERENCES" subject n.id (some (("role", text "evidence") ∷ [])) w' in
              (ok (present n), link_support opts confidence n linked.1)
        ]
      ]
      else (service_error range_message, w)

  -- the neighbours of a kind, or of every kind for ""
  unfoldable pub presented : String → List (Edge V × Node V) → List (Properties V)
  presented kind [] = []
  presented kind ((e, n) ∷ neighbors) =
      let rest = presented kind neighbors in
      if str_eq kind "" || str_eq n.kind kind then present n ∷ rest else rest

  unfoldable pub get_neighbors : String → String → String → R.World → Option (List (Properties V))
  get_neighbors subject edge kind w = elim (R.neighbors subject edge dir_out w) [
    | none ↦ none
    | some found ↦ some (presented kind found)
  ]

  unfoldable pub get_hypotheses : String → R.World → Option (List (Properties V))
  get_hypotheses subject w = get_neighbors subject "SUSPECTED_AS" "" w

  unfoldable pub get_evidence : String → R.World → Option (List (Properties V))
  get_evidence subject w = get_neighbors subject "REFERENCES" "Evidence" w

  pub record Superseded : Type 0 where
    pub old_id : String
    pub new_id : String
    pub new : Properties V
    pub old_superseded_at : String

  -- what SupersedeEvidence does with a record that is current
  unfoldable pub replace_record :
      String
      → String
      → Node V
      → String
      → String
      → String
      → String
      → R.World
      → Reply Superseded × R.World
  replace_record project id old body rationale agent now w =
      let (marked, w1) =
        R.upsert_node old.kind (("id", text old.id) ∷ []) (("superseded_at", text now) ∷ []) w in
      let (stored, w2) =
        R.upsert_node old.kind
          (("project_id", text project)
            ∷ ("subject_id", property V old.properties "subject_id")
            ∷ ("description", text body)
            ∷ [])
          (("state", property V old.properties "state")
            ∷ ("confidence", property V old.properties "confidence")
            ∷ ("agent", text agent)
            ∷ ("method", text "supersede")
            ∷ ("timestamp", text now)
            ∷ ("supersedes", text id)
            ∷ ("supersede_rationale", text rationale)
            ∷ [])
          w1 in
      elim marked [
        | none ↦ (failed, w1)
        | some _ ↦ elim stored [
          | none ↦ (failed, w2)
          | some n ↦
              let (linked, w3) =
                R.link "SUPERSEDED_BY" old.id n.id
                  (some (("at", text now) ∷ ("rationale", text rationale) ∷ [])) w2 in
              elim linked [
                | none ↦ (failed, w3)
                | some _ ↦ (
                  ok (record {
                    old_id = old.id;
                    new_id = n.id;
                    new = present n;
                    old_superseded_at = now;
                  }),
                  w3,
                )
              ]
        ]
      ]

  unfoldable pub supersede_evidence :
      String → String → String → String → String → String → R.World → Reply Superseded × R.World
  supersede_evidence project id body rationale agent now w = elim (R.get_node w id) [
    | none ↦ (service_error "evidence record not found", w)
    | some old ↦
        if not (is_text (property V old.properties "project_id") project)
        then (service_error "evidence is absent or belongs to another project", w)
        else elim (as_text (property V old.properties "superseded_at")) [
          | some _ ↦ (service_error "evidence is already superseded", w)
          | none ↦ replace_record project id old body rationale agent now w
        ]
  ]
