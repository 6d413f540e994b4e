-- ===== src/Task/Types.antt =====
-- The records of internal/services/tasks.go and its transition tables. States are Go strings, as
-- in the source: a state outside a table has no successor.
use code_rag.Common.{
  ℕ, String, Bool, Option, none, List, [], ◌∷◌, ℤ, pos, ◌^◌, str_eq, str_mem, if◌then◌else◌,
}

-- A finite float64 is an integer multiple of 2 ^ -1074, and is represented by that integer, which
-- is exact. The code only compares confidences with 0 and 1. JSON carries no NaN and no infinity.
abbrev pub Float64 : Type 0
Float64 = ℤ

unfoldable pub float_one : Float64
float_one = pos (2 ^ 1074)

unfoldable pub float_half : Float64
float_half = pos (2 ^ 1073)

-- The `[]string` of a key; a missing key has the nil slice.
unfoldable pub successors : List (String × List String) → String → List String
successors [] from = []
successors ((key, targets) ∷ table) from =
    if str_eq key from then targets else successors table from

abbrev pub task_transitions : List (String × List String)
task_transitions =
    ("UNKNOWN", "DISCOVERING" ∷ "BLOCKED" ∷ [])
    ∷ ("DISCOVERING", "ANALYZING" ∷ "HYPOTHESIS" ∷ "BLOCKED" ∷ "STALE" ∷ [])
    ∷ ("ANALYZING", "DISCOVERING" ∷ "HYPOTHESIS" ∷ "IMPLEMENTING" ∷ "BLOCKED" ∷ "STALE" ∷ [])
    ∷ ("HYPOTHESIS", "DISCOVERING" ∷ "ANALYZING" ∷ "IMPLEMENTING" ∷ "BLOCKED" ∷ "STALE" ∷ [])
    ∷ ("IMPLEMENTING", "ANALYZING" ∷ "VERIFYING" ∷ "BLOCKED" ∷ "STALE" ∷ [])
    ∷ ("VERIFYING", "IMPLEMENTING" ∷ "ANALYZING" ∷ "VALIDATED" ∷ "BLOCKED" ∷ "STALE" ∷ [])
    ∷ ("VALIDATED", "STALE" ∷ [])
    ∷ ("BLOCKED", "DISCOVERING" ∷ "ANALYZING" ∷ "HYPOTHESIS" ∷ "IMPLEMENTING" ∷ "VERIFYING" ∷ [])
    ∷ ("STALE", "DISCOVERING" ∷ "ANALYZING" ∷ "BLOCKED" ∷ [])
    ∷ []

abbrev pub hyp_transitions : List (String × List String)
hyp_transitions =
    ("UNKNOWN", "SUSPECTED" ∷ [])
    ∷ ("SUSPECTED", "SUPPORTED" ∷ "PARTIAL" ∷ "CONTRADICTED" ∷ [])
    ∷ ("SUPPORTED", "CONFIRMED" ∷ "PARTIAL" ∷ "CONTRADICTED" ∷ "SUSPECTED" ∷ [])
    ∷ ("PARTIAL", "SUPPORTED" ∷ "CONFIRMED" ∷ "CONTRADICTED" ∷ "SUSPECTED" ∷ [])
    ∷ ("CONFIRMED", "CONTRADICTED" ∷ [])
    ∷ ("CONTRADICTED", "SUSPECTED" ∷ [])
    ∷ []

unfoldable pub allowed : List (String × List String) → String → String → Bool
unfolding successors str_mem
allowed table from to = str_mem to (successors table from)

pub record TaskFact : Type 0 where
  pub text : String
  pub kind : String
  pub source : String
  pub at : String
  pub by : String

pub record TaskHypothesis : Type 0 where
  pub id : String
  pub claim : String
  pub subject_id : String
  pub status : String
  pub confidence : Float64
  pub evidence_for : List String
  pub evidence_against : List String

pub record ToolResult : Type 0 where
  pub tool : String
  pub summary : String
  pub at : String
  pub by : String

pub record ValidationEntry : Type 0 where
  pub name : String
  pub status : String
  pub detail : String
  pub at : String

pub record Transition : Type 0 where
  pub from : String
  pub to : String
  pub at : String
  pub by : String
  pub reason : String

pub record TaskState : Type 0 where
  pub task_id : String
  pub project_id : String
  pub goal : String
  pub mode : String
  pub state : String
  pub current_step : String
  pub plan : List String
  pub completed : List String
  pub pending : List String
  pub known_facts : List TaskFact
  pub unknowns : List String
  pub constraints : List String
  pub references : List String
  pub hypotheses : List TaskHypothesis
  pub evidence : List String
  pub tool_results : List ToolResult
  pub failures : List String
  pub validation : List ValidationEntry
  pub next_action : String
  pub created_by : String
  pub updated_by : String
  pub created_at : String
  pub updated_at : String
  pub revision : String
  pub version : ℕ
  pub history : List Transition

-- `id` is "" for a new hypothesis; a nil pointer is `none`.
pub record HypothesisOp : Type 0 where
  pub id : String
  pub claim : String
  pub subject_id : String
  pub status : String
  pub confidence : Option Float64
  pub evidence_for : List String
  pub evidence_against : List String

pub record TaskPatch : Type 0 where
  pub expected_version : Option ℤ
  pub state : String
  pub state_reason : String
  pub current_step : Option String
  pub add_plan : List String
  pub complete_steps : List String
  pub add_facts : List TaskFact
  pub add_unknowns : List String
  pub resolve_unknowns : List String
  pub add_constraints : List String
  pub add_references : List String
  pub add_evidence : List String
  pub add_tool_results : List ToolResult
  pub add_failures : List String
  pub clear_failures : Bool
  pub add_validation : List ValidationEntry
  pub hypotheses : List HypothesisOp
  pub next_action : Option String

-- The empty patch, `TaskPatch{}`.
abbrev pub no_patch : TaskPatch
no_patch = record {
  expected_version = none;
  state = "";
  state_reason = "";
  current_step = none;
  add_plan = [];
  complete_steps = [];
  add_facts = [];
  add_unknowns = [];
  resolve_unknowns = [];
  add_constraints = [];
  add_references = [];
  add_evidence = [];
  add_tool_results = [];
  add_failures = [];
  clear_failures = Bool.false;
  add_validation = [];
  hypotheses = [];
  next_action = none;
}
