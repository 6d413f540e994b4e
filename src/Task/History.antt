-- ===== src/Task/History.antt =====
-- The state machine of a task, and the history that it leaves.
use code_rag.Common.{
  String, true, [], ◌∷◌, ◌++◌, ◌≡◌, ◌≢◌, inl, inr, sym, subst, ◌∙◌, ◌||◌, arith, str_eq, str_eq_iff,
  Bool-cases,
}
use code_rag.Task.Types.{TaskState, TaskPatch, allowed, task_transitions}
use code_rag.Task.Result.{ok}
use code_rag.Task.Repo.{Repo}
use code_rag.Task.Inversion.{Applied, update-Applied}
use code_rag.Task.Staged.{Staged, stage_fields-Staged}
use code_rag.Task.Service.{load, update}
use code_rag.Task.Validation.{AllPassed, last_named, validation_gate_iff}
use code_rag.Task.Stages.{change_state, validation_gate}

-- What Update does to the state and the history: nothing, or one allowed transition, which it logs.
pub data Moves (now agent reason : String) (ts ts' : TaskState) : Type 0 where
  stays : ts'.state ≡ ts.state → ts'.history ≡ ts.history → Moves now agent reason ts ts'
  goes :
      allowed task_transitions ts.state ts'.state ≡ true
      → (ts'.state ≡ "VALIDATED" → validation_gate ts'.validation ≡ ok tt)
      → ts'.history
        ≡ ts.history
          ++ record { from = ts.state; to = ts'.state; at = now; by = agent; reason = reason } ∷ []
      → Moves now agent reason ts ts'

change_state-Moves :
    (state reason now agent : String) (ts ts' : TaskState)
    → change_state state reason now agent ts ≡ ok ts'
    → Moves now agent reason ts ts'
unfolding change_state
change_state-Moves state reason now agent ts ts' e =
    elim (Bool-cases (str_eq state "" || str_eq state ts.state)) [
      | inl same ↦ stays (ground arith) (ground arith)
      | inr other ↦ elim (Bool-cases (allowed task_transitions ts.state state)) [
        | inl legal ↦
            goes (ground arith) (ground (arith, str_eq_iff state "VALIDATED")) (ground arith)
        | inr illegal ↦ absurd (ground arith)
      ]
    ]

-- VALIDATED has one predecessor in the table.
validated_from_verifying :
    (from : String) → allowed task_transitions from "VALIDATED" ≡ true → from ≡ "VERIFYING"
unfolding allowed
validated_from_verifying from h = ground (arith, str_eq_iff "VERIFYING" from)

module _ (R : Repo) (project agent now : String) (p : TaskPatch) where
  open R use {World}

  Applied-Moves :
      (w w' : World) (ts ts' : TaskState)
      → Applied R project agent now p w w' ts ts'
      → Moves now agent p.state_reason ts ts'
  Applied-Moves w w' ts ts' a =
      elim (change_state-Moves p.state p.state_reason now agent _ _ a.moves) [
        | stays same_state same_history ↦
            stays (ground (arith, s.state)) (ground (arith, s.history))
        | goes legal gate logged ↦
            goes (ground (arith, s.state)) (λ v. ground (arith, gate (ground arith)))
              (ground (arith, s.state, s.history))
      ]
    where
      s : Staged R project agent now p w ts a.staged
      s = stage_fields-Staged R project agent now p w ts a.staged a.stages

  -- A successful update makes at most one transition, which the table allows, and logs it. A
  -- transition to VALIDATED also passed the validation gate.
  pub update-Moves :
      (task : String) (w w' : World) (ts' : TaskState)
      → update R project task agent now p w ≡ (ok ts', w')
      → (ts : TaskState) × (load R project task w ≡ (ok ts, w))
        × Moves now agent p.state_reason ts ts'
  update-Moves task w w' ts' e =
      let (ts, loaded, a) = update-Applied R project agent now p task w w' ts' e in
      (ts, loaded, Applied-Moves w w' ts ts' a)

  Moves-validated :
      (ts ts' : TaskState)
      → Moves now agent p.state_reason ts ts'
      → ts'.state ≡ "VALIDATED"
      → ts.state ≢ "VALIDATED"
      → (ts.state ≡ "VERIFYING") × (validation_gate ts'.validation ≡ ok tt)
  Moves-validated ts ts' (stays same _) v n = absurd (n (sym same ∙ v))
  Moves-validated ts ts' (goes legal gate _) v n = (
    validated_from_verifying ts.state
        (subst (λ t. allowed task_transitions ts.state t ≡ true) v legal),
    gate v,
  )

  -- An update that makes a task VALIDATED found it VERIFYING, with a validation recorded and the
  -- last entry of every validation passed.
  pub update-validated :
      (task : String) (w w' : World) (ts ts' : TaskState)
      → load R project task w ≡ (ok ts, w)
      → update R project task agent now p w ≡ (ok ts', w')
      → ts'.state ≡ "VALIDATED"
      → ts.state ≢ "VALIDATED"
      → (ts.state ≡ "VERIFYING")
        × (ts'.validation ≢ [])
        × AllPassed (λ n. last_named n ts'.validation)
  update-validated task w w' ts ts' l e v n =
      let (u, loaded, m) = update-Moves task w w' ts' e in
      let same : u ≡ ts = ground arith in
      let (verifying, gate) = Moves-validated u ts' m v (λ k. n (rw (← same) k)) in
      let (some_entry, passed) = (validation_gate_iff ts'.validation).0 gate in
      (rw (← same) verifying, some_entry, passed)
