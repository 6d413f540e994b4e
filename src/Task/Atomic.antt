-- ===== src/Task/Atomic.antt =====
-- When a refused update leaves the repository as it was.
use Prim.Native.String.{◌++◌ as str_append}
use code_rag.Common.{
  ℕ, ◌+◌, String, List, [], ◌∷◌, ◌≡◌, refl, ◌≢◌, ap, sym, ◌∙◌, not, is_blank, itoa, ◌⊎◌, inl, inr,
  arith, str_eq_iff, All, length,
}
use code_rag.Task.Types.{Float64, TaskState, TaskPatch, TaskHypothesis, HypothesisOp}
use code_rag.Task.Result.{TaskError, Result, ok, err, guard, no_claim, bad_confidence, conflict}
use code_rag.Task.Action.{Action, and_then, ◌>>=◌, lift}
use code_rag.Task.Repo.{Repo}
use code_rag.Task.Hypotheses.{
  out_of_range, confidence_or_half, revise, register, new_hypothesis, append_hypothesis,
  apply_hypothesis, apply_hypotheses,
}
use code_rag.Task.Stages.{change_state}
use code_rag.Task.Fields.{stage_fields}
use code_rag.Task.Service.{version_conflict, load, save, update, update_loaded, update_staged}

-- The operation creates no hypothesis about a subject, so it writes no node.
abbrev pub WritesNothing : HypothesisOp → Type 0
WritesNothing op = (op.id ≢ "") ⊎ (op.subject_id ≡ "")

and_then_keeps :
    {W A B : Type 0} (r : Result A) (w w' : W) (f : A → Action W B)
    → w' ≡ w
    → ((a : A) → (f a w).1 ≡ w)
    → (and_then r w' f).1 ≡ w
and_then_keeps (ok a) w w' f same keeps = rw same (keeps a)
and_then_keeps (err e) w w' f same keeps = same

>>=-keeps :
    {W A B : Type 0} (m : Action W A) (f : A → Action W B) (w : W)
    → (m w).1 ≡ w
    → ((a : A) → (f a w).1 ≡ w)
    → ((m >>= f) w).1 ≡ w
>>=-keeps m f w same keeps = and_then_keeps (m w).0 w (m w).1 f same keeps

module _ (R : Repo) where
  open R use {World}

  register_keeps :
      (project agent claim subject_id : String) (conf : Float64) (id : String) (w : World)
      → subject_id ≡ ""
      → register R project agent claim subject_id conf id w ≡ (ok id, w)
  unfolding register
  register_keeps project agent claim subject_id conf id w e =
      ground (arith, str_eq_iff subject_id "")

  new_hypothesis_keeps :
      (project agent : String) (op : HypothesisOp) (count : ℕ) (w : World)
      → op.subject_id ≡ ""
      → (new_hypothesis R project agent op count w).1 ≡ w
  unfolding new_hypothesis
  new_hypothesis_keeps project agent op count w e =
      >>=-keeps (lift (guard (not (is_blank op.claim)) no_claim)) _ w refl (λ _.
        >>=-keeps
          (lift (guard (not (out_of_range (confidence_or_half op.confidence))) bad_confidence)) _ w
          refl
          (λ _.
            >>=-keeps
              (register R project agent op.claim op.subject_id (confidence_or_half op.confidence)
                (str_append "hyp-" (itoa (count + 1))))
              _ w
              (ap (λ r. r.1)
                (register_keeps project agent op.claim op.subject_id
                  (confidence_or_half op.confidence) (str_append "hyp-" (itoa (count + 1))) w e))
              (λ id. refl)))

  append_hypothesis_keeps :
      (project agent : String) (op : HypothesisOp) (hs : List TaskHypothesis) (w : World)
      → op.subject_id ≡ ""
      → (append_hypothesis R project agent op hs w).1 ≡ w
  unfolding append_hypothesis
  append_hypothesis_keeps project agent op hs w e =
      >>=-keeps (new_hypothesis R project agent op (length hs)) _ w
        (new_hypothesis_keeps project agent op (length hs) w e)
        (λ h. >>=-keeps (lift (revise op h)) _ w refl (λ h'. refl))

  apply_hypothesis_keeps :
      (project agent : String) (op : HypothesisOp) (hs : List TaskHypothesis) (w : World)
      → WritesNothing op
      → (apply_hypothesis R project agent op hs w).1 ≡ w
  unfolding apply_hypothesis
  apply_hypothesis_keeps project agent op hs w (inl existing) = ground (arith, str_eq_iff op.id "")
  apply_hypothesis_keeps project agent op hs w (inr no_subject) =
      ground (arith, append_hypothesis_keeps project agent op hs w no_subject)

  apply_hypotheses_keeps :
      (project agent : String) (ops : List HypothesisOp) (hs : List TaskHypothesis) (w : World)
      → All WritesNothing ops
      → (apply_hypotheses R project agent ops hs w).1 ≡ w
  unfolding apply_hypotheses
  apply_hypotheses_keeps project agent [] hs w h = refl
  apply_hypotheses_keeps project agent (op ∷ ops) hs w h =
      >>=-keeps (apply_hypothesis R project agent op hs) _ w
        (apply_hypothesis_keeps project agent op hs w h.0)
        (λ hs'. apply_hypotheses_keeps project agent ops hs' w h.1)

  -- An action that writes at its end alone.
  abbrev FailsClean : {A : Type 0} → Action World A → World → Type 0
  FailsClean m w = (e : TaskError) (w' : World) → m w ≡ (err e, w') → w' ≡ w

  and_then-FailsClean :
      {A B : Type 0} (r : Result A) (w1 : World) (f : A → Action World B) (w : World)
      → w1 ≡ w
      → ((a : A) → FailsClean (f a) w)
      → (e : TaskError) (w' : World) → and_then r w1 f ≡ (err e, w')
      → w' ≡ w
  and_then-FailsClean (ok a) w1 f w same clean e w' h = clean a e w' (ap (f a) (sym same) ∙ h)
  and_then-FailsClean (err e') w1 f w same clean e w' h = sym (ap (λ r. r.1) h) ∙ same

  >>=-FailsClean :
      {A B : Type 0} (m : Action World A) (f : A → Action World B) (w : World)
      → (m w).1 ≡ w
      → ((a : A) → FailsClean (f a) w)
      → FailsClean (m >>= f) w
  >>=-FailsClean m f w same clean = and_then-FailsClean (m w).0 (m w).1 f w same clean

  save-FailsClean : (ts : TaskState) (w : World) → FailsClean (save R ts) w
  unfolding save
  save-FailsClean ts w e w' h = ground arith

  module _ (project task agent now : String) (p : TaskPatch) where
    update_staged-FailsClean :
        (staged : TaskState) (w : World)
        → All WritesNothing p.hypotheses
        → FailsClean (update_staged R project agent now p staged) w
    unfolding update_staged
    update_staged-FailsClean staged w h =
        >>=-FailsClean (apply_hypotheses R staged.project_id agent p.hypotheses staged.hypotheses) _
          w (apply_hypotheses_keeps staged.project_id agent p.hypotheses staged.hypotheses w h)
          (λ hs.
            >>=-FailsClean
              (lift
                (change_state p.state p.state_reason now agent (record staged { hypotheses = hs })))
              _ w refl (λ moved. save-FailsClean _ w))

    update_loaded-FailsClean :
        (ts : TaskState) (w : World)
        → All WritesNothing p.hypotheses
        → FailsClean (update_loaded R project agent now p ts) w
    unfolding update_loaded
    update_loaded-FailsClean ts w h =
        >>=-FailsClean
          (lift (guard (not (version_conflict p.expected_version ts.version)) conflict)) _ w refl
          (λ _.
            >>=-FailsClean (λ v. (stage_fields R v project agent now p ts, v)) _ w refl
              (λ staged. update_staged-FailsClean staged w h))

    load_keeps : (w : World) → (load R project task w).1 ≡ w
    unfolding load
    load_keeps w = ground arith

    -- A refused update leaves the repository as it was, whichever check refused it, if no hypothesis
    -- operation of the patch creates a hypothesis about a subject.
    pub update_atomic :
        (w w' : World) (e : TaskError)
        → All WritesNothing p.hypotheses
        → update R project task agent now p w ≡ (err e, w')
        → w' ≡ w
    unfolding update
    update_atomic w w' e h =
        >>=-FailsClean (load R project task) _ w (load_keeps w)
          (λ ts. update_loaded-FailsClean ts w h) e w'
