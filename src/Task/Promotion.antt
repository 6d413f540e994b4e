-- ===== src/Task/Promotion.antt =====
-- Every hypothesis of a task keeps the evidence that its status asks for.
use code_rag.Common.{
  ℕ, String, List, [], ◌∷◌, ◌++◌, ◌≡◌, ◌⊎◌, inl, inr, arith, str_eq_iff, length, get_elem?, set,
  All, All-append, All-set, All-get_elem?, Option-cases,
}
use code_rag.Task.Types.{TaskState, TaskPatch, TaskHypothesis, HypothesisOp}
use code_rag.Task.Result.{ok, Result-cases}
use code_rag.Task.Action.{>>=-eq-ok, and_then-eq-ok}
use code_rag.Task.Repo.{Repo}
use code_rag.Task.Hypotheses.{
  revise, last_index, revise_at, revise_existing, new_hypothesis, append_hypothesis,
  apply_hypothesis, apply_hypotheses,
}
use code_rag.Task.Evidence.{IsSupported, revise-IsSupported}
use code_rag.Task.Service.{load, update}
use code_rag.Task.Inversion.{update-Applied}
use code_rag.Task.Staged.{stage_fields-Staged}
use code_rag.Task.Versions.{change_state_keeps}

revise_at-IsSupported :
    (op : HypothesisOp) (i : ℕ) (hs hs' : List TaskHypothesis)
    → revise_at op i hs ≡ ok hs'
    → All IsSupported hs
    → All IsSupported hs'
unfolding revise_at
revise_at-IsSupported op i hs hs' e a = elim (Option-cases (get_elem? hs i)) [
  | inl missing ↦ absurd (ground arith)
  | inr (h, found) ↦ elim (Result-cases (revise op h)) [
    | inl (h', revised) ↦
        let same : hs' ≡ set hs i h' = ground arith in
        rw same (
          All-set IsSupported hs i h' a
            (revise-IsSupported op h h' revised (All-get_elem? IsSupported hs i a found)))
    | inr (f, refused) ↦ absurd (ground arith)
  ]
]

revise_existing-IsSupported :
    (op : HypothesisOp) (hs hs' : List TaskHypothesis)
    → revise_existing op hs ≡ ok hs'
    → All IsSupported hs
    → All IsSupported hs'
unfolding revise_existing
revise_existing-IsSupported op hs hs' e a = elim (Option-cases (last_index op.id hs)) [
  | inl missing ↦ absurd (ground arith)
  | inr (i, found) ↦ revise_at-IsSupported op i hs hs' (ground arith) a
]

-- A hypothesis as it is created: suspected, with no evidence.
suspected-IsSupported :
    (h : TaskHypothesis)
    → h.status ≡ "SUSPECTED"
    → h.evidence_for ≡ []
    → h.evidence_against ≡ []
    → IsSupported h
suspected-IsSupported h s f g = ground (
  arith,
  str_eq_iff "SUSPECTED" "SUPPORTED",
  str_eq_iff "SUSPECTED" "PARTIAL",
  str_eq_iff "SUSPECTED" "CONFIRMED",
  str_eq_iff "SUSPECTED" "CONTRADICTED",
)

module _ (R : Repo) (project agent : String) where
  open R use {World}

  new_hypothesis-IsSupported :
      (op : HypothesisOp) (n : ℕ) (w w' : World) (h : TaskHypothesis)
      → new_hypothesis R project agent op n w ≡ (ok h, w')
      → IsSupported h
  unfolding new_hypothesis
  new_hypothesis-IsSupported op n w w' h e =
      suspected-IsSupported h (ground arith) (ground arith) (ground arith)

  append_hypothesis-IsSupported :
      (op : HypothesisOp) (hs hs' : List TaskHypothesis) (w w' : World)
      → append_hypothesis R project agent op hs w ≡ (ok hs', w')
      → All IsSupported hs
      → All IsSupported hs'
  unfolding append_hypothesis
  append_hypothesis-IsSupported op hs hs' w w' e a =
      let (h, w1, created, k) = >>=-eq-ok (new_hypothesis R project agent op (length hs)) _ w e in
      let (h', revised, l) = and_then-eq-ok (revise op h) w1 _ k in
      let same : hs' ≡ hs ++ h' ∷ [] = ground arith in
      let good = new_hypothesis-IsSupported op (length hs) w w1 h created in
      rw same (All-append IsSupported hs (h' ∷ []) a (revise-IsSupported op h h' revised good, tt))

  apply_hypothesis_cases :
      (op : HypothesisOp) (hs hs' : List TaskHypothesis) (w w' : World)
      → apply_hypothesis R project agent op hs w ≡ (ok hs', w')
      → (append_hypothesis R project agent op hs w ≡ (ok hs', w'))
        ⊎ (revise_existing op hs ≡ ok hs')
  unfolding apply_hypothesis
  apply_hypothesis_cases op hs hs' w w' e = ground arith

  apply_hypothesis-IsSupported :
      (op : HypothesisOp) (hs hs' : List TaskHypothesis) (w w' : World)
      → apply_hypothesis R project agent op hs w ≡ (ok hs', w')
      → All IsSupported hs
      → All IsSupported hs'
  apply_hypothesis-IsSupported op hs hs' w w' e a = elim (apply_hypothesis_cases op hs hs' w w' e) [
    | inl appended ↦ append_hypothesis-IsSupported op hs hs' w w' appended a
    | inr revised ↦ revise_existing-IsSupported op hs hs' revised a
  ]

  apply_hypotheses-IsSupported :
      (ops : List HypothesisOp) (hs hs' : List TaskHypothesis) (w w' : World)
      → apply_hypotheses R project agent ops hs w ≡ (ok hs', w')
      → All IsSupported hs
      → All IsSupported hs'
  unfolding apply_hypotheses
  apply_hypotheses-IsSupported [] hs hs' w w' e a =
      let same : hs ≡ hs' = ground arith in rw (← same) a
  apply_hypotheses-IsSupported (op ∷ ops) hs hs' w w' e a =
      let (hs1, w1, first, rest) = >>=-eq-ok (apply_hypothesis R project agent op hs) _ w e in
      apply_hypotheses-IsSupported ops hs1 hs' w1 w' rest
        (apply_hypothesis-IsSupported op hs hs1 w w1 first a)

-- An update keeps every hypothesis of the task supported, those that it adds included. The evidence
-- lists have no value twice, so the two supports of a CONFIRMED hypothesis differ.
pub update-IsSupported :
    (R : Repo) (project task agent now : String) (p : TaskPatch) (w w' : R.World)
    (ts ts' : TaskState)
    → load R project task w ≡ (ok ts, w)
    → update R project task agent now p w ≡ (ok ts', w')
    → All IsSupported ts.hypotheses
    → All IsSupported ts'.hypotheses
update-IsSupported R project task agent now p w w' ts ts' l e c =
    let (u, loaded, a) = update-Applied R project agent now p task w w' ts' e in
    let s = stage_fields-Staged R project agent now p w u a.staged a.stages in
    let k = change_state_keeps p.state p.state_reason now agent _ _ a.moves in
    let before : a.staged.hypotheses ≡ ts.hypotheses = ground (arith, s.hypotheses) in
    let after : ts'.hypotheses ≡ a.hypotheses = ground arith in
    rw after (
      apply_hypotheses-IsSupported R a.staged.project_id agent p.hypotheses a.staged.hypotheses
        a.hypotheses w a.written a.revises (rw before c))
