-- ===== src/Task/Hypotheses.antt =====
-- TaskService.applyHypothesis and the loop over `p.Hypotheses`.
use Prim.Native.String.{◌++◌ as str_append}
use code_rag.Common.{
  ℕ, suc, ◌+◌, String, Bool, true, false, Option, none, some, List, [], ◌∷◌, ◌++◌, ◌||◌, ◌&&◌, not,
  pos, str_eq, is_blank, ◌==◌, length, get_elem?, set, ltb, ltb_ℤ, itoa, if◌then◌else◌,
}
use code_rag.Ids
use code_rag.Task.Types.{Float64, float_one, float_half, TaskHypothesis, HypothesisOp}
use code_rag.Task.Types.{hyp_transitions, allowed}
use code_rag.Task.Result.{Result, ok, err, no_evidence, no_claim, bad_confidence, no_hypothesis}
use code_rag.Task.Result.{illegal_hypothesis, unsupported, contradicting, ref_invalid, guard}
use code_rag.Task.Action.{Action, ◌>>=◌, ◌>>◌, lift, read}
use code_rag.Task.Repo.{Repo, RefStatus}
use code_rag.Task.Stages.{unique_strings}

-- confidence < 0 || confidence > 1
unfoldable pub out_of_range : Float64 → Bool
out_of_range c = ltb_ℤ c (pos 0) || ltb_ℤ float_one c

-- the switch on `op.Status`: what a status needs before a hypothesis can have it
unfoldable pub status_gate : String → List String → List String → Result (Unit {0})
status_gate status for against =
    if str_eq status "SUPPORTED" || str_eq status "PARTIAL"
    then (if length for == 0 then err unsupported else ok tt)
    else if str_eq status "CONFIRMED"
    then (if ltb (length for) 2
        then err unsupported
        else if ltb 0 (length against)
        then err contradicting
        else ok tt)
    else if str_eq status "CONTRADICTED"
    then (if length against == 0 then err unsupported else ok tt)
    else ok tt

unfoldable pub with_confidence : Option Float64 → TaskHypothesis → Result TaskHypothesis
unfolding out_of_range
with_confidence none h = ok h
with_confidence (some c) h =
    if out_of_range c then err bad_confidence else ok (record h { confidence = c })

-- `op.Status`, if it is given and differs
unfoldable pub with_status : String → TaskHypothesis → Result TaskHypothesis
with_status status h =
    if str_eq status "" || str_eq status h.status
    then ok h
    else if allowed hyp_transitions h.status status
    then elim (status_gate status h.evidence_for h.evidence_against) [
      | ok _ ↦ ok (record h { status = status })
      | err e ↦ err e
    ]
    else err illegal_hypothesis

unfoldable pub with_evidence : HypothesisOp → TaskHypothesis → TaskHypothesis
with_evidence op h = record h {
  evidence_for = unique_strings (h.evidence_for ++ op.evidence_for);
  evidence_against = unique_strings (h.evidence_against ++ op.evidence_against);
}

-- the second half of applyHypothesis, on the hypothesis that `h` points to
unfoldable pub revise : HypothesisOp → TaskHypothesis → Result TaskHypothesis
revise op h = elim (with_confidence op.confidence (with_evidence op h)) [
  | ok h' ↦ with_status op.status h'
  | err e ↦ err e
]

-- the loop that leaves `h` at the last hypothesis with the id
unfoldable pub last_index : String → List TaskHypothesis → Option ℕ
last_index id [] = none
last_index id (h ∷ hs) = elim (last_index id hs) [
  | some i ↦ some (suc i)
  | none ↦ if str_eq h.id id then some 0 else none
]

unfoldable pub revise_at : HypothesisOp → ℕ → List TaskHypothesis → Result (List TaskHypothesis)
revise_at op i hs = elim (get_elem? hs i) [
  | none ↦ err no_hypothesis
  | some h ↦ elim (revise op h) [ ok h' ↦ ok (set hs i h') | err e ↦ err e ]
]

unfoldable pub revise_existing : HypothesisOp → List TaskHypothesis → Result (List TaskHypothesis)
revise_existing op hs = elim (last_index op.id hs) [
  | none ↦ err no_hypothesis
  | some i ↦ revise_at op i hs
]

abbrev pub confidence_or_half : Option Float64 → Float64
confidence_or_half none = float_half
confidence_or_half (some c) = c

module _ (R : Repo) (project : String) where
  open R use {World, get_node, resolve, lookup}

  -- n.Kind == "Evidence" && n.Properties["project_id"] == projectID
  unfoldable pub evidence_exists : World → String → Bool
  evidence_exists w id = elim (get_node w id) [
    | none ↦ false
    | some n ↦ str_eq n.kind "Evidence" && str_eq n.project_id project
  ]

  unfoldable pub all_exist : World → List String → Bool
  all_exist w [] = true
  all_exist w (id ∷ ids) = evidence_exists w id && all_exist w ids

  unfoldable pub is_invalid : World → String → Bool
  is_invalid w id = elim (resolve w project id) [ RefStatus.invalid ↦ true | _ ↦ false ]

  unfoldable pub subject_node : World → String → String
  subject_node w subject_id = elim (lookup w project subject_id) [
    | none ↦ subject_id
    | some node ↦ node
  ]

module _ (R : Repo) (project agent : String) where
  open R use {World, record_hypothesis}

  -- RecordHypothesis writes a Hypothesis node; where it fails the id stays "hyp-<n>"
  unfoldable pub register : String → String → Float64 → String → Action World String
  register claim subject_id conf id w =
      if str_eq subject_id ""
      then (ok id, w)
      else if is_invalid R project w subject_id && Ids.looks subject_id
      then (err ref_invalid, w)
      else (let (w', recorded) =
            record_hypothesis w project (subject_node R project w subject_id) claim conf agent in
          elim recorded [ none ↦ (ok id, w') | some node ↦ (ok node, w') ])

  unfoldable pub new_hypothesis : HypothesisOp → ℕ → Action World TaskHypothesis
  new_hypothesis op count = do
    lift (guard (not (is_blank op.claim)) no_claim)
    let conf = confidence_or_half op.confidence
    lift (guard (not (out_of_range conf)) bad_confidence)
    id ← register op.claim op.subject_id conf (str_append "hyp-" (itoa (count + 1)))
    lift (
        ok (record {
          id = id;
          claim = op.claim;
          subject_id = op.subject_id;
          status = "SUSPECTED";
          confidence = conf;
          evidence_for = [];
          evidence_against = [];
        }))

  -- op.ID == ""
  unfoldable pub append_hypothesis :
      HypothesisOp → List TaskHypothesis → Action World (List TaskHypothesis)
  append_hypothesis op hs = do
    h ← new_hypothesis op (length hs)
    h' ← lift (revise op h)
    lift (ok (hs ++ h' ∷ []))

  unfoldable pub apply_hypothesis :
      HypothesisOp → List TaskHypothesis → Action World (List TaskHypothesis)
  apply_hypothesis op hs = do
    existing ← read (λ w. all_exist R project w (op.evidence_for ++ op.evidence_against))
    lift (guard existing no_evidence)
    (if str_eq op.id "" then append_hypothesis op hs else lift (revise_existing op hs))

  unfoldable pub apply_hypotheses :
      List HypothesisOp → List TaskHypothesis → Action World (List TaskHypothesis)
  apply_hypotheses [] hs = lift (ok hs)
  apply_hypotheses (op ∷ ops) hs = do hs' ← apply_hypothesis op hs; apply_hypotheses ops hs'
