-- ===== src/Task/Plan.antt =====
-- The plan of a task through an update.
use mathlib.Core.List.{Perm, perm_append_comm, append_assoc}
use mathlib.Core.List.Perm
use code_rag.Common.{String, List, ◌++◌, ◌≡◌, arith}
use code_rag.Task.Types.{TaskState, TaskPatch}
use code_rag.Task.Result.{ok}
use code_rag.Task.Repo.{Repo}
use code_rag.Task.Service.{load, update}
use code_rag.Task.Inversion.{update-Applied}
use code_rag.Task.Staged.{stage_fields-Staged}
use code_rag.Task.Steps.{complete_steps-perm}
use code_rag.Task.Versions.{change_state_keeps}

-- The plan is what is pending and what is completed, each step as often as it was planned.
abbrev pub IsSplit : TaskState → Type 0
IsSplit ts = Perm ts.plan (ts.pending ++ ts.completed)

-- New steps go to the end of the plan and to the end of the pending steps.
planned_perm :
    (plan pending completed new : List String)
    → Perm plan (pending ++ completed)
    → Perm (plan ++ new) ((pending ++ new) ++ completed)
planned_perm plan pending completed new h = Perm.trans (Perm.append_right new h) (
    Perm.trans (rw (append_assoc pending completed new) Perm.rfl) (
      Perm.trans (Perm.append_left pending (perm_append_comm completed new))
        (rw (append_assoc pending new completed) Perm.rfl)))

-- A successful update keeps the plan split into pending and completed steps: a completed step was
-- pending, and no step is lost or counted twice.
pub update-IsSplit :
    (R : Repo) (project task agent now : String) (p : TaskPatch) (w w' : R.World)
    (ts ts' : TaskState)
    → load R project task w ≡ (ok ts, w)
    → update R project task agent now p w ≡ (ok ts', w')
    → IsSplit ts
    → IsSplit ts'
update-IsSplit R project task agent now p w w' ts ts' l e h =
    let (u, loaded, a) = update-Applied R project agent now p task w w' ts' e in
    let s = stage_fields-Staged R project agent now p w u a.staged a.stages in
    let k = change_state_keeps p.state p.state_reason now agent _ _ a.moves in
    let plan : ts'.plan ≡ ts.plan ++ p.add_plan = ground (arith, s.plan) in
    let pending : ts'.pending ≡ a.staged.pending = ground arith in
    let completed : ts'.completed ≡ a.staged.completed = ground arith in
    let steps : Perm ((u.pending ++ p.add_plan) ++ u.completed)
        (a.staged.pending ++ a.staged.completed) =
      complete_steps-perm (u.pending ++ p.add_plan) u.completed p.complete_steps
        {pending' = a.staged.pending} {completed' = a.staged.completed} s.steps in
    let same : u ≡ ts = ground arith in
    rw (plan, pending, completed)
      (Perm.trans (planned_perm ts.plan ts.pending ts.completed p.add_plan h) (rw same at steps))
