-- ===== src/Task/Versions.antt =====
-- Versions: concurrent agents fail loudly instead of overwriting each other.
use code_rag.Common.{◌+◌, String, some, ◌≡◌, ◌≢◌, arith, pos, ℤ}
use code_rag.Task.Types.{TaskState, TaskPatch}
use code_rag.Task.Result.{ok, err, conflict}
use code_rag.Task.Repo.{Repo}
use code_rag.Task.Stages.{change_state}
use code_rag.Task.Service.{version_conflict, load, update, update_loaded}
use code_rag.Task.Inversion.{update-Applied}
use code_rag.Task.Staged.{stage_fields-Staged}

pub change_state_keeps :
    (state reason now agent : String) (ts ts' : TaskState)
    → change_state state reason now agent ts ≡ ok ts'
    → ts' ≡ record ts { state = ts'.state; history = ts'.history }
unfolding change_state
change_state_keeps state reason now agent ts ts' e = ground arith

-- What the repository and the codec promise: a stored task is found again, and decodes to itself.
pub record RepoLaws (R : Repo) : Type 0 where
  pub found_after :
      (w w' : R.World) (ts : TaskState) (b : R.Blob)
      → R.upsert_task w ts b ≡ some w'
      → R.find_task w' ts.project_id ts.task_id ≡ some b
  pub decodes : (ts : TaskState) → R.unmarshal (R.marshal ts) ≡ some ts

module _ (R : Repo) (project task agent now : String) (p : TaskPatch) where
  open R use {World}

  -- A successful update counts the version up by one, and records the agent and the time. The
  -- identifiers of the task stay.
  pub update-version :
      (w w' : World) (ts ts' : TaskState)
      → load R project task w ≡ (ok ts, w)
      → update R project task agent now p w ≡ (ok ts', w')
      → (ts'.version ≡ ts.version + 1)
        × (ts'.updated_by ≡ agent)
        × (ts'.updated_at ≡ now)
        × (ts'.project_id ≡ ts.project_id)
        × (ts'.task_id ≡ ts.task_id)
  update-version w w' ts ts' l e =
      let (u, loaded, a) = update-Applied R project agent now p task w w' ts' e in
      let s = stage_fields-Staged R project agent now p w u a.staged a.stages in
      let k = change_state_keeps p.state p.state_reason now agent _ _ a.moves in
      ground (arith, s.version, s.project_id, s.task_id)

  -- An update that expects another version is refused, and writes nothing.
  pub update-conflict :
      (w : World) (ts : TaskState) (v : ℤ)
      → load R project task w ≡ (ok ts, w)
      → p.expected_version ≡ some v
      → v ≢ pos ts.version
      → update R project task agent now p w ≡ (err conflict, w)
  unfolding update update_loaded version_conflict
  update-conflict w ts v l e n = ground arith

  -- Over a repository that finds a stored task again and decodes it to itself, for a task stored under
  -- its own identifiers: after a successful update the task loads as the state that the update returned.
  pub load-update :
      (w w' : World) (ts ts' : TaskState)
      → RepoLaws R
      → load R project task w ≡ (ok ts, w)
      → ts.project_id ≡ project
      → ts.task_id ≡ task
      → update R project task agent now p w ≡ (ok ts', w')
      → load R project task w' ≡ (ok ts', w')
  unfolding load
  load-update w w' ts ts' laws l ep et e =
      let (u, loaded, a) = update-Applied R project agent now p task w w' ts' e in
      let (_, _, _, kp, kt) = update-version w w' ts ts' l e in
      ground (arith, laws.found_after a.written w' ts' (R.marshal ts') a.saves, laws.decodes ts')

-- Over a repository that finds a stored task again and decodes it to itself, for a task stored under
-- its own identifiers: when an update has succeeded, a second one that expects the version from before
-- the first is refused as a conflict, and writes nothing.
pub update_once :
    (R : Repo) (project task : String) (agent agent' now now' : String) (p q : TaskPatch)
    (w w' : R.World) (ts ts' : TaskState)
    → RepoLaws R
    → load R project task w ≡ (ok ts, w)
    → ts.project_id ≡ project
    → ts.task_id ≡ task
    → q.expected_version ≡ some (pos ts.version)
    → update R project task agent now p w ≡ (ok ts', w')
    → update R project task agent' now' q w' ≡ (err conflict, w')
update_once R project task agent agent' now now' p q w w' ts ts' laws l ep et eq e =
    update-conflict R project task agent' now' q w' ts' (pos ts.version)
      (load-update R project task agent now p w w' ts ts' laws l ep et e) eq
      (λ k. ground (arith, (update-version R project task agent now p w w' ts ts' l e).0))
