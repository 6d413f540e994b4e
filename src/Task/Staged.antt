-- ===== src/Task/Staged.antt =====
-- The staging of an Update, taken apart: what each field of the staged task is.
use code_rag.Common.{String, true, ◌++◌, ◌≡◌, arith}
use code_rag.Task.Types.{TaskState, TaskPatch}
use code_rag.Task.Result.{ok}
use code_rag.Task.Repo.{Repo}
use code_rag.Task.Stages.{unique_strings, add_facts, complete_steps, resolve_unknowns}
use code_rag.Task.Stages.{add_validation}
use code_rag.Task.Hypotheses.{all_exist}
use code_rag.Task.Fields.{refs_ok, provenance_ok, stage_fields}

module _ (R : Repo) (project agent now : String) (p : TaskPatch) where
  open R use {World}

  pub record Staged (w : World) (ts staged : TaskState) : Type 0 where
    pub refs_resolve : refs_ok R w project p.add_references ≡ true
    pub evidence_exists : all_exist R project w p.add_evidence ≡ true
    pub facts :
        add_facts (provenance_ok R w project) now agent ts.known_facts p.add_facts
        ≡ ok staged.known_facts
    pub steps :
        complete_steps (ts.pending ++ p.add_plan) ts.completed p.complete_steps
        ≡ ok (staged.pending, staged.completed)
    pub unknowns :
        resolve_unknowns (unique_strings (ts.unknowns ++ p.add_unknowns)) p.resolve_unknowns
        ≡ ok staged.unknowns
    pub validations : add_validation now ts.validation p.add_validation ≡ ok staged.validation
    pub plan : staged.plan ≡ ts.plan ++ p.add_plan
    pub references : staged.references ≡ unique_strings (ts.references ++ p.add_references)
    pub evidence : staged.evidence ≡ unique_strings (ts.evidence ++ p.add_evidence)
    pub state : staged.state ≡ ts.state
    pub history : staged.history ≡ ts.history
    pub hypotheses : staged.hypotheses ≡ ts.hypotheses
    pub version : staged.version ≡ ts.version
    pub project_id : staged.project_id ≡ ts.project_id
    pub task_id : staged.task_id ≡ ts.task_id

  pub stage_fields-Staged :
      (w : World) (ts staged : TaskState)
      → stage_fields R w project agent now p ts ≡ ok staged
      → Staged w ts staged
  unfolding stage_fields
  stage_fields-Staged w ts staged e = ground arith
