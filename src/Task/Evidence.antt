-- ===== src/Task/Evidence.antt =====
-- Promotion is gated on evidence: what a hypothesis with a status always has.
use code_rag.Common.{
  ◌≤◌, String, true, false, Option, none, some, List, [], ◌∷◌, ◌++◌, ◌≡◌, refl, subst, ◌⊎◌, inl,
  inr, arith, str_mem, length,
}
use code_rag.Task.Types.{Float64, TaskHypothesis, HypothesisOp, allowed, hyp_transitions}
use code_rag.Task.Result.{ok, Result-cases}
use code_rag.Task.Stages.{unique_from, unique_strings}
use code_rag.Task.Hypotheses.{status_gate, with_confidence, with_status, with_evidence, revise}

-- No value twice, and no empty text.
abbrev pub Fresh : List String → List String → Type 0
Fresh seen [] = Unit {0}
Fresh seen (s ∷ xs) = (str_mem s seen ≡ false) × Fresh (s ∷ seen) xs

unique_from-Fresh : (seen xs : List String) → Fresh seen (unique_from seen xs)
unfolding unique_from
unique_from-Fresh seen [] = tt
unique_from-Fresh seen (s ∷ xs) =
    ground (arith, unique_from-Fresh seen xs, unique_from-Fresh (s ∷ seen) xs)

unique_from_id : (seen xs : List String) → Fresh seen xs → unique_from seen xs ≡ xs
unfolding unique_from
unique_from_id seen [] f = refl
unique_from_id seen (s ∷ xs) f = ground (arith, unique_from_id (s ∷ seen) xs)

-- What is there already stays, at the front.
length-unique_from-append :
    (seen xs ys : List String) → Fresh seen xs → length xs ≤ length (unique_from seen (xs ++ ys))
unfolding unique_from
length-unique_from-append seen [] ys f = omega arith
length-unique_from-append seen (s ∷ xs) ys f =
    ground (arith, length-unique_from-append (s ∷ seen) xs ys)

-- SUPPORTED and PARTIAL rest on one supporting evidence, CONFIRMED on two different ones, and
-- CONTRADICTED on one against.
pub record IsSupported (h : TaskHypothesis) : Type 0 where
  pub distinct_for : Fresh ("" ∷ []) h.evidence_for
  pub distinct_against : Fresh ("" ∷ []) h.evidence_against
  pub supported : h.status ≡ "SUPPORTED" → 1 ≤ length h.evidence_for
  pub partial : h.status ≡ "PARTIAL" → 1 ≤ length h.evidence_for
  pub confirmed : h.status ≡ "CONFIRMED" → 2 ≤ length h.evidence_for
  pub contradicted : h.status ≡ "CONTRADICTED" → 1 ≤ length h.evidence_against

with_evidence-IsSupported :
    (op : HypothesisOp) (h : TaskHypothesis) → IsSupported h → IsSupported (with_evidence op h)
unfolding with_evidence unique_strings
with_evidence-IsSupported op h v = ground (
  arith,
  unique_from-Fresh ("" ∷ []) (h.evidence_for ++ op.evidence_for),
  unique_from-Fresh ("" ∷ []) (h.evidence_against ++ op.evidence_against),
  length-unique_from-append ("" ∷ []) h.evidence_for op.evidence_for,
  length-unique_from-append ("" ∷ []) h.evidence_against op.evidence_against,
)

with_confidence-IsSupported :
    (c : Option Float64) (h h' : TaskHypothesis)
    → with_confidence c h ≡ ok h'
    → IsSupported h
    → IsSupported h'
unfolding with_confidence
with_confidence-IsSupported none h h' e v = ground arith
with_confidence-IsSupported (some c) h h' e v = ground arith

-- What the gate asks of the evidence for each status.
status_gate-ok :
    (status : String) (for against : List String)
    → status_gate status for against ≡ ok tt
    → (status ≡ "SUPPORTED" → 1 ≤ length for)
      × (status ≡ "PARTIAL" → 1 ≤ length for)
      × (status ≡ "CONFIRMED" → (2 ≤ length for) × (length against ≡ 0))
      × (status ≡ "CONTRADICTED" → 1 ≤ length against)
unfolding status_gate
status_gate-ok status for against e = (
  λ q. ground (arith, at q),
  λ q. ground (arith, at q),
  λ q. ground (arith, at q),
  λ q. ground (arith, at q),
)
  where
    at : {s : String} → status ≡ s → status_gate s for against ≡ ok tt
    at q = subst (λ s. status_gate s for against ≡ ok tt) q e

with_status_cases :
    (status : String) (h h' : TaskHypothesis)
    → with_status status h ≡ ok h'
    → (h' ≡ h)
      ⊎ ((allowed hyp_transitions h.status status ≡ true)
          × (status_gate status h.evidence_for h.evidence_against ≡ ok tt)
          × (h' ≡ record h { status = status }))
unfolding with_status
with_status_cases status h h' e = ground arith

with_status-IsSupported :
    (status : String) (h h' : TaskHypothesis)
    → with_status status h ≡ ok h'
    → IsSupported h
    → IsSupported h'
with_status-IsSupported status h h' e v = elim (with_status_cases status h h' e) [
  | inl same ↦ rw same v
  | inr (legal, gate, changed) ↦
      let (supported, partial, confirmed, contradicted) =
        status_gate-ok status h.evidence_for h.evidence_against gate in
      rw changed (record {
        distinct_for = v.distinct_for;
        distinct_against = v.distinct_against;
        supported = supported;
        partial = partial;
        confirmed = λ q. (confirmed q).0;
        contradicted = contradicted;
      })
]

-- Revising a hypothesis keeps it supported.
pub revise-IsSupported :
    (op : HypothesisOp) (h h' : TaskHypothesis)
    → revise op h ≡ ok h'
    → IsSupported h
    → IsSupported h'
unfolding revise
revise-IsSupported op h h' e v =
    elim (Result-cases (with_confidence op.confidence (with_evidence op h))) [
      | inl (g, confident) ↦ with_status-IsSupported op.status g h' (ground arith) (
          with_confidence-IsSupported op.confidence (with_evidence op h) g confident
            (with_evidence-IsSupported op h v))
      | inr (f, refused) ↦ absurd (ground arith)
    ]
