-- ===== src/Task/Inversion.antt =====
-- A successful Update, taken apart: what it loaded, staged, moved and saved.
use code_rag.Common.{
  ◌+◌, String, Bool, true, false, some, List, ◌≡◌, inl, inr, not, arith, Option-cases,
}
use code_rag.Task.Types.{TaskState, TaskPatch, TaskHypothesis}
use code_rag.Task.Result.{ok, guard-eq-ok}
use code_rag.Task.Action.{>>=-eq-ok, and_then-eq-ok}
use code_rag.Task.Repo.{Repo}
use code_rag.Task.Stages.{change_state}
use code_rag.Task.Hypotheses.{apply_hypotheses}
use code_rag.Task.Fields.{stage_fields}
use code_rag.Task.Service.{version_conflict, load, save, update_staged, update_loaded, update}

not-eq-true : {b : Bool} → not b ≡ true → b ≡ false
not-eq-true e = ground arith

module _ (R : Repo) (project agent now : String) (p : TaskPatch) where
  open R use {World, upsert_task, marshal}

  -- The parts of a successful update of the task `ts`, from the world `w` to `w'`.
  pub record Applied (w w' : World) (ts ts' : TaskState) : Type 0 where
    pub staged : TaskState
    pub hypotheses : List TaskHypothesis
    pub moved : TaskState
    pub written : World
    pub current : version_conflict p.expected_version ts.version ≡ false
    pub stages : stage_fields R w project agent now p ts ≡ ok staged
    pub revises :
        apply_hypotheses R staged.project_id agent p.hypotheses staged.hypotheses w
        ≡ (ok hypotheses, written)
    pub moves :
        change_state p.state p.state_reason now agent (record staged { hypotheses = hypotheses })
        ≡ ok moved
    pub result :
        ts' ≡ record moved { updated_by = agent; updated_at = now; version = moved.version + 1 }
    pub saves : upsert_task written ts' (marshal ts') ≡ some w'

  save-eq-ok :
      (ts : TaskState) (w : World) {ts' : TaskState} {w' : World}
      → save R ts w ≡ (ok ts', w')
      → (ts' ≡ ts) × (upsert_task w ts (marshal ts) ≡ some w')
  unfolding save
  save-eq-ok ts w e = elim (Option-cases (upsert_task w ts (marshal ts))) [
    | inl failed ↦ absurd (ground arith)
    | inr (u, saved) ↦ ground arith
  ]

  update_staged-eq-ok :
      (staged : TaskState) (w w' : World) (ts' : TaskState)
      → update_staged R project agent now p staged w ≡ (ok ts', w')
      → (hs : List TaskHypothesis) × (moved : TaskState) × (w1 : World) × (apply_hypotheses R
            staged.project_id agent p.hypotheses staged.hypotheses w
          ≡ (ok hs, w1))
        × (change_state p.state p.state_reason now agent (record staged { hypotheses = hs })
            ≡ ok moved)
        × (save R
              (record moved { updated_by = agent; updated_at = now; version = moved.version + 1 })
              w1
            ≡ (ok ts', w'))
  unfolding update_staged
  update_staged-eq-ok staged w w' ts' e =
      let (hs, w1, revises, k) =
        >>=-eq-ok (apply_hypotheses R staged.project_id agent p.hypotheses staged.hypotheses) _ w
          e in
      let (moved, moves, l) = and_then-eq-ok _ w1 _ k in (hs, moved, w1, revises, moves, l)

  update_loaded-eq-ok :
      (ts : TaskState) (w w' : World) (ts' : TaskState)
      → update_loaded R project agent now p ts w ≡ (ok ts', w')
      → (staged : TaskState) × (version_conflict p.expected_version ts.version ≡ false)
        × (stage_fields R w project agent now p ts ≡ ok staged)
        × (update_staged R project agent now p staged w ≡ (ok ts', w'))
  unfolding update_loaded
  update_loaded-eq-ok ts w w' ts' e =
      let (_, current, k) = and_then-eq-ok _ w _ e in
      let (staged, stages, l) = and_then-eq-ok (stage_fields R w project agent now p ts) w _ k in
      (staged, not-eq-true (guard-eq-ok _ _ current), stages, l)

  pub update_loaded-Applied :
      (ts : TaskState) (w w' : World) (ts' : TaskState)
      → update_loaded R project agent now p ts w ≡ (ok ts', w')
      → Applied w w' ts ts'
  update_loaded-Applied ts w w' ts' e =
      let (staged, current, stages, k) = update_loaded-eq-ok ts w w' ts' e in
      let (hs, moved, w1, revises, moves, l) = update_staged-eq-ok staged w w' ts' k in
      let (same, saved) = save-eq-ok _ w1 l in
      record {
        staged = staged;
        hypotheses = hs;
        moved = moved;
        written = w1;
        current = current;
        stages = stages;
        revises = revises;
        moves = moves;
        result = same;
        saves = rw same saved;
      }

  module _ (task : String) where
    load_keeps_world : (w : World) → (load R project task w).1 ≡ w
    unfolding load
    load_keeps_world w = ground arith

    -- Every successful update loads a task and has these parts.
    pub update-Applied :
        (w w' : World) (ts' : TaskState)
        → update R project task agent now p w ≡ (ok ts', w')
        → (ts : TaskState) × (load R project task w ≡ (ok ts, w)) × Applied w w' ts ts'
    unfolding update
    update-Applied w w' ts' e =
        let (ts, loaded, k) =
          and_then-eq-ok (load R project task w).0 (load R project task w).1 _ e in
        (
          ts,
          λ i. (loaded i, load_keeps_world w i),
          update_loaded-Applied ts w w' ts' (rw (load_keeps_world w) at k),
        )
