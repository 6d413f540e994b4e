-- ===== src/Evidence/Recorded.antt =====
-- What a recorded hypothesis is, and when a record is refused.
use code_rag.Common.{
  ℕ, ℤ, pos, ltb_ℤ, ◌≤ℤ◌, ◌^◌, ◌↔◌, not, ◌||◌, String, true, none, some, List, [], ◌∷◌, ◌≡◌, refl,
  ◌∙◌, sym, subst, arith, str_eq_iff, str_mem, Bool-cases, Option-cases, ◌⊎◌, inl, inr,
}
use code_rag.Graph.Types.{Values, ValueLaws, Properties, Node, property}
use code_rag.Graph.Repository.{
  GraphRepository, RepositoryLaws, last_value, has_key, is_reserved, IsIdentity,
}
use code_rag.Evidence.Records.{
  ok, service_error, present, option_text, in_range, subject_of, is_text, range_message,
  subject_message, record_hypothesis,
}

module _ (V : Values) (R : GraphRepository V) where
  open V use {text, number}

  module _ (project subject claim : String) (confidence : ℤ) (opts : Properties V)
      (now : String) where
    abbrev pub identity : Properties V
    identity =
        ("project_id", text project) ∷ ("subject_id", text subject) ∷ ("claim", text claim) ∷ []

    abbrev given : Properties V
    given =
        ("state", text (option_text V R opts "state" "HYPOTHESIS"))
        ∷ ("confidence", number confidence)
        ∷ (
          "confidence_source",
          text (option_text V R opts "confidence_source" "analyst assessment"),
        )
        ∷ ("analyst", text (option_text V R opts "analyst" "unknown"))
        ∷ ("agent", text (option_text V R opts "agent" "unknown"))
        ∷ ("method", text (option_text V R opts "method" "manual"))
        ∷ ("timestamp", text now)
        ∷ []

    -- from 0 to 1
    abbrev pub IsConfidence : Type 0
    IsConfidence = (pos 0 ≤ℤ confidence) × (confidence ≤ℤ pos (2 ^ 1074))

    -- The repository has the subject, and its "project_id" is the project.
    abbrev pub HasSubject : R.World → Type 0
    HasSubject w =
        (s : Node V) × (R.get_node w subject ≡ some s)
        × (V.as_text (property V s.properties "project_id") ≡ some project)

    in_range_iff : (in_range V R confidence ≡ true) ↔ IsConfidence
    unfolding in_range
    in_range_iff = within (2 ^ 1074)
      where
        within :
            (most : ℕ)
            → (not (ltb_ℤ confidence (pos 0) || ltb_ℤ (pos most) confidence) ≡ true)
              ↔ ((pos 0 ≤ℤ confidence) × (confidence ≤ℤ pos most))
        within most = ground arith

    subject_of-some :
        (w : R.World) (s : Node V) → subject_of V R project subject w ≡ some s → HasSubject w
    unfolding subject_of is_text
    subject_of-some w s e = elim (Option-cases (R.get_node w subject)) [
      | inl absent ↦ absurd (ground arith)
      | inr (n, there) ↦ elim (Option-cases (V.as_text (property V n.properties "project_id"))) [
        | inl other ↦ absurd (ground arith)
        | inr (t, is) ↦ (n, there, ground (arith, str_eq_iff t project))
      ]
    ]

    subject_of-none : (w : R.World) → subject_of V R project subject w ≡ none → ¬ HasSubject w
    unfolding subject_of is_text
    subject_of-none w e (s, there, is) = ground (arith, str_eq_iff project project)

    -- What stands in the way of a hypothesis, with the message that says so.
    abbrev pub Refusal : R.World → String → Type 0
    Refusal w message =
        ((¬ IsConfidence) × (message ≡ range_message))
        ⊎ (IsConfidence × (¬ HasSubject w) × (message ≡ subject_message))

    refused :
        (message : String) (w w' : R.World)
        → record_hypothesis V R project subject claim confidence opts now w
          ≡ (service_error message, w')
        → (w' ≡ w) × Refusal w message
    unfolding record_hypothesis
    refused message w w' e =
        let (stored, w1) = R.upsert_node "Hypothesis" identity given w in
        elim (Bool-cases (in_range V R confidence)) [
          | inr out ↦ (ground arith, inl (λ c. ground (arith, in_range_iff.1 c), ground arith))
          | inl within ↦ elim (Option-cases (subject_of V R project subject w)) [
            | inl absent ↦
                (ground arith, inr (in_range_iff.0 within, subject_of-none w absent, ground arith))
            | inr (s, there) ↦ elim (Option-cases stored) [
              | inl lost ↦ absurd (ground arith)
              | inr (n, kept) ↦ absurd (ground arith)
            ]
          ]
        ]

    recorded :
        (shown : Properties V) (w w' : R.World)
        → record_hypothesis V R project subject claim confidence opts now w ≡ (ok shown, w')
        → (n : Node V) × (w1 : R.World) × (R.upsert_node "Hypothesis" identity given w
            ≡ (some n, w1))
          × (shown ≡ present V R n)
          × (w'
              ≡ (R.link "SUSPECTED_AS" subject n.id
                  (some (
                    ("confidence", number confidence)
                    ∷ ("state", text (option_text V R opts "state" "HYPOTHESIS"))
                    ∷ []))
                  w1).1)
          × IsConfidence
          × HasSubject w
    unfolding record_hypothesis
    recorded shown w w' e =
        let (stored, w1) = R.upsert_node "Hypothesis" identity given w in
        elim (Bool-cases (in_range V R confidence)) [
          | inr out ↦ absurd (ground arith)
          | inl within ↦ elim (Option-cases (subject_of V R project subject w)) [
            | inl absent ↦ absurd (ground arith)
            | inr (s, there) ↦ elim (Option-cases stored) [
              | inl lost ↦ absurd (ground arith)
              | inr (n, kept) ↦ (
                n,
                w1,
                ground arith,
                ground arith,
                ground arith,
                in_range_iff.0 within,
                subject_of-some w s there,
              )
            ]
          ]
        ]

    -- When a hypothesis is refused with a message, nothing has changed, and either the confidence is not from
    -- 0 to 1, or it is and the repository has no node of the subject's identifier whose "project_id" is the
    -- project, as the message says. One that is recorded has such a confidence and such a subject; in a
    -- good world it is afterwards the first hypothesis that a search for the project, the subject and the
    -- claim finds, it is what the call shows, and it has the confidence that was given.
    pub record_hypothesis_lem :
        (L : ValueLaws V) (W : RepositoryLaws V R) (w : R.World)
        → W.Good w
        → ((message : String) (w' : R.World)
            → record_hypothesis V R project subject claim confidence opts now w
              ≡ (service_error message, w')
            → (w' ≡ w) × Refusal w message)
          × ((shown : Properties V) (w' : R.World)
              → record_hypothesis V R project subject claim confidence opts now w ≡ (ok shown, w')
              → IsConfidence
                × HasSubject w
                × ((n : Node V) × (rest : List (Node V)) × (R.find_nodes "Hypothesis" identity w'
                      ≡ some (n ∷ rest))
                    × (shown ≡ present V R n)
                    × (property V n.properties "confidence" ≡ number confidence)))
    unfolding is_reserved str_mem has_key last_value
    record_hypothesis_lem L W w good = (
      λ message w' e. refused message w w' e,
      λ shown w' e.
          let (n, w1, upserted, same, world, within, has) = recorded shown w w' e in
          let self : (s : String) → V.deep_equal (text s) (text s) ≡ true =
            λ s. ground (arith, L.deep_equal-text s s, str_eq_iff s s) in
          let is : IsIdentity V identity given = (
            refl,
            refl,
            refl,
            self project,
            (refl, refl, refl, self subject, (refl, refl, refl, self claim, tt)),
          ) in
          let (rest, found) = W.upsert-find "Hypothesis" identity given w w1 n upserted is good in
          let link_properties : Properties V =
            ("confidence", number confidence)
            ∷ ("state", text (option_text V R opts "state" "HYPOTHESIS"))
            ∷ [] in
          let (old, there) =
            W.upsert-property "Hypothesis" identity given w w1 n upserted "confidence" refl refl in
          (
            within,
            has,
            (
              n,
              rest,
              subst (λ x. R.find_nodes "Hypothesis" identity x ≡ some (n ∷ rest)) (sym world)
                  (W.link-find "SUSPECTED_AS" subject n.id (some link_properties) w1 "Hypothesis"
                      identity
                    ∙ found),
              same,
              there,
            ),
          ),
    )
