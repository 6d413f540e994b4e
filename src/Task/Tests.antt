-- ===== src/Task/Tests.antt =====
-- Runs of the task service over a small repository.
use mathlib.Core.List.Perm
use Prim.Native.String.{◌++◌ as str_append}
use code_rag.Common.{
  ℕ, ◌+◌, String, Option, none, some, List, [], ◌∷◌, ◌≡◌, ◌≢◌, refl, arith, inl, str_eq, str_eq_iff,
  str_mem, ◌↔◌, is_blank, pos, itoa, if◌then◌else◌, ◌&&◌, All, is_space, trim_left, trim_right,
  trim_space,
}
use code_rag.Task.Types.{
  TaskState, TaskPatch, ValidationEntry, no_patch, allowed, successors, float_half, float_one,
}
use code_rag.Task.Result.{Result, ok, err, conflict, no_hypothesis, illegal_transition}
use code_rag.Task.Repo.{Repo, RefStatus}
use code_rag.Task.Service.{
  load, save, create, update, update_loaded, update_staged, resume, version_conflict, fresh_task,
  handed_over, resume_loaded, goes_stale, hand_over, bad_references,
}
use code_rag.Task.Validation.{AllPassed, last_named, validation_gate_iff}
use code_rag.Task.History.{Moves, update-Moves, update-validated}
use code_rag.Task.Chain.{HasHistory, update-HasHistory, resume-HasHistory}
use code_rag.Task.Creation.{HasGuards, create_lem}
use code_rag.Task.Versions.{RepoLaws, update-version, load-update, update_once}
use code_rag.Task.Evidence.{IsSupported}
use code_rag.Task.Promotion.{update-IsSupported}
use code_rag.Task.Types.{HypothesisOp}
use code_rag.Task.Atomic.{update_atomic}
use code_rag.Task.Plan.{IsSplit, update-IsSplit}
use code_rag.Task.Facts.{AreAdded, HasProvenance, update-IsGrounded}
use code_rag.Task.Types.{TaskFact}
use code_rag.Task.Stages.{
  unique_from, unique_strings, index_of, remove_at, kind_or_inference, check_fact, add_facts,
  complete_steps, resolve_unknowns, add_tool_results, add_validation, put_latest, latest_from,
  all_passed, validation_gate, change_state,
}
use code_rag.Task.Fields.{refs_ok, stage_fields}
use code_rag.Task.Hypotheses.{revise_existing, last_index, is_invalid, subject_node}
use code_rag.Task.Hypotheses.{
  out_of_range, status_gate, with_confidence, with_status, with_evidence, revise, evidence_exists,
  all_exist, register, new_hypothesis, append_hypothesis, apply_hypothesis, apply_hypotheses,
}

record Store : Type 0 where
  tasks : List (String × String × TaskState)
  written : ℕ

find_in : List (String × String × TaskState) → String → String → Option TaskState
find_in [] project task = none
find_in ((p, t, b) ∷ ts) project task =
    if str_eq p project && str_eq t task then some b else find_in ts project task

-- A repository with the project "p", the evidence "ev-1" and "ev-2", and one reference that is gone.
abbrev small : Repo
small = record {
  World = Store;
  Blob = TaskState;
  get_node = λ w id.
      if str_mem id ("ev-1" ∷ "ev-2" ∷ [])
      then some (record { kind = "Evidence"; project_id = "p" })
      else none;
  project_exists = λ w p. str_eq p "p";
  find_task = λ w p t. find_in w.tasks p t;
  upsert_task = λ w t b. some (record w { tasks = (t.project_id, t.task_id, b) ∷ w.tasks });
  marshal = λ t. t;
  unmarshal = λ t. some t;
  resolve = λ w p ref. if str_eq ref "func:gone" then RefStatus.invalid else RefStatus.valid;
  lookup = λ w p ref. none;
  record_hypothesis = λ w p s c f a.
      (record w { written = w.written + 1 }, some (str_append "hypothesis-" (itoa w.written)));
  head_revision = λ w p. "r0";
}

abbrev ok_or : {A : Type 0} → A → Result A → A
ok_or a (ok b) = b
ok_or a (err e) = a

abbrev start : TaskState
start = fresh_task "p" "find the bug" "explore" "ann" [] [] "1" "now" "r0"

abbrev w0 : Store
w0 = record { tasks = ("p", "t-1", start) ∷ []; written = 0 }

abbrev plan_patch : TaskPatch
plan_patch = record no_patch {
  state = "DISCOVERING";
  add_plan = "read" ∷ "test" ∷ [];
  complete_steps = "read" ∷ [];
  add_facts = record { text = "it fails"; kind = ""; source = ""; at = ""; by = "" } ∷ [];
  expected_version = some (pos 1);
  hypotheses =
      record {
        id = "";
        claim = "an index is off by one";
        subject_id = "";
        status = "SUPPORTED";
        confidence = none;
        evidence_for = "ev-1" ∷ [];
        evidence_against = [];
      }
      ∷ [];
}

loads : load small "p" "t-1" w0 ≡ (ok start, w0)
unfolding load find_in
loads = refl

found_in_self :
    (p t : String) (b : TaskState) (ts : List (String × String × TaskState))
    → find_in ((p, t, b) ∷ ts) p t ≡ some b
unfolding find_in
found_in_self p t b ts = ground (arith, str_eq_iff p p, str_eq_iff t t)

small-RepoLaws : RepoLaws small
small-RepoLaws = record {
  found_after = λ w w' ts b e.
      let same : w'.tasks ≡ (ts.project_id, ts.task_id, b) ∷ w.tasks = ground arith in
      rw same (found_in_self ts.project_id ts.task_id b w.tasks);
  decodes = λ ts. refl;
}

abbrev ts1 : TaskState
ts1 = ok_or start (update small "p" "t-1" "bob" "later" plan_patch w0).0

abbrev w1 : Store
w1 = (update small "p" "t-1" "bob" "later" plan_patch w0).1

planned_runs : update small "p" "t-1" "bob" "later" plan_patch w0 ≡ (ok ts1, w1)
unfolding load find_in update update_loaded version_conflict stage_fields refs_ok all_exist
    add_facts check_fact kind_or_inference complete_steps index_of remove_at resolve_unknowns
    unique_strings unique_from add_validation add_tool_results update_staged apply_hypotheses
    apply_hypothesis append_hypothesis new_hypothesis register revise with_confidence with_evidence
    with_status status_gate out_of_range change_state save allowed evidence_exists is_blank
    trim_space trim_left trim_right is_space str_mem successors float_half float_one
planned_runs = refl

-- The second patch finds a task that is being verified.
abbrev verifying : TaskState
verifying = record start { state = "VERIFYING"; version = 7 }

abbrev w2 : Store
w2 = record { tasks = ("p", "t-1", verifying) ∷ []; written = 0 }

abbrev entry : String → String → ValidationEntry
entry name status = record { name = name; status = status; detail = ""; at = "" }

abbrev pass_patch : TaskPatch
pass_patch = record no_patch {
  state = "VALIDATED";
  add_validation = entry "unit" "failed" ∷ entry "unit" "passed" ∷ [];
}

abbrev ts3 : TaskState
ts3 = ok_or start (update small "p" "t-1" "bob" "later" pass_patch w2).0

abbrev w3 : Store
w3 = (update small "p" "t-1" "bob" "later" pass_patch w2).1

verifying_loads : load small "p" "t-1" w2 ≡ (ok verifying, w2)
unfolding load find_in
verifying_loads = refl

validated_runs :
    (update small "p" "t-1" "bob" "later" pass_patch w2 ≡ (ok ts3, w3)) × (ts3.state ≡ "VALIDATED")
unfolding load find_in update update_loaded version_conflict stage_fields refs_ok all_exist
    add_facts check_fact kind_or_inference complete_steps index_of remove_at resolve_unknowns
    unique_strings unique_from add_validation add_tool_results update_staged apply_hypotheses
    apply_hypothesis append_hypothesis new_hypothesis register revise with_confidence with_evidence
    with_status status_gate out_of_range change_state save allowed evidence_exists is_blank
    trim_space trim_left trim_right is_space str_mem successors float_half float_one validation_gate
    all_passed latest_from put_latest
validated_runs = (refl, refl)

validation_gate_iff_example :
    (validation_gate (entry "unit" "failed" ∷ entry "unit" "passed" ∷ []) ≡ ok tt) ↔ (
      ((entry "unit" "failed" ∷ entry "unit" "passed" ∷ []) ≢ [])
      × AllPassed (λ n. last_named n (entry "unit" "failed" ∷ entry "unit" "passed" ∷ [])))
validation_gate_iff_example =
    validation_gate_iff (entry "unit" "failed" ∷ entry "unit" "passed" ∷ [])

update-validated_example :
    (verifying.state ≡ "VERIFYING")
    × (ts3.validation ≢ [])
    × AllPassed (λ n. last_named n ts3.validation)
update-validated_example =
    update-validated small "p" "bob" "later" pass_patch "t-1" w2 w3 verifying ts3 verifying_loads
      validated_runs.0 validated_runs.1
      (λ e. absurd (ground (arith, str_eq_iff "VERIFYING" "VALIDATED")))

update-Moves_example :
    (ts : TaskState) × (load small "p" "t-1" w2 ≡ (ok ts, w2)) × Moves "later" "bob" "" ts ts3
update-Moves_example =
    update-Moves small "p" "bob" "later" pass_patch "t-1" w2 w3 ts3 validated_runs.0

created_runs :
    create small "p" "find the bug" "explore" "ann" [] [] "1" "now"
      (record { tasks = []; written = 0 })
    ≡ (ok start, w0)
unfolding create save refs_ok is_blank trim_space trim_left trim_right is_space str_mem
    unique_strings unique_from
created_runs = refl

create_lem_example :
    HasGuards small "p" "find the bug" "explore" [] (record { tasks = []; written = 0 })
    × (load small "p" "t-1" w0 ≡ (ok start, w0))
    × HasHistory start
    × ((start.goal ≡ "find the bug")
        × (start.mode ≡ "explore")
        × (start.state ≡ "UNKNOWN")
        × (start.version ≡ 1))
create_lem_example =
    create_lem small "p" "find the bug" "explore" "ann" [] [] "1" "now"
      (record { tasks = []; written = 0 }) w0 start small-RepoLaws created_runs

update-HasHistory_example : HasHistory ts1
update-HasHistory_example =
    update-HasHistory small "p" "t-1" "bob" "later" plan_patch w0 w1 start ts1 loads planned_runs
      (refl, inl (refl, refl), refl)

abbrev resumed : Result (TaskState × ℕ) × Store
resumed = resume small "p" "t-1" "cy" "later" w0

abbrev ts4 : TaskState
ts4 = handed_over "cy" "later" start

abbrev w4 : Store
w4 = resumed.1

resumed_runs : resume small "p" "t-1" "cy" "later" w0 ≡ (ok (ts4, 0), w4)
unfolding resume load find_in bad_references resume_loaded goes_stale hand_over unique_strings
    unique_from
resumed_runs = refl

resume-HasHistory_example : HasHistory ts4
resume-HasHistory_example =
    resume-HasHistory small "p" "t-1" "cy" "later" w0 w4 start ts4 0 loads resumed_runs
      (refl, inl (refl, refl), refl)

update-version_example :
    (ts1.version ≡ 2)
    × (ts1.updated_by ≡ "bob")
    × (ts1.updated_at ≡ "later")
    × (ts1.project_id ≡ "p")
    × (ts1.task_id ≡ "t-1")
update-version_example =
    update-version small "p" "t-1" "bob" "later" plan_patch w0 w1 start ts1 loads planned_runs

load-update_example : load small "p" "t-1" w1 ≡ (ok ts1, w1)
load-update_example =
    load-update small "p" "t-1" "bob" "later" plan_patch w0 w1 start ts1 small-RepoLaws loads refl
      refl planned_runs

update_once_example :
    update small "p" "t-1" "cy" "then" (record no_patch { expected_version = some (pos 1) }) w1
    ≡ (err conflict, w1)
update_once_example =
    update_once small "p" "t-1" "bob" "cy" "later" "then" plan_patch
      (record no_patch { expected_version = some (pos 1) }) w0 w1 start ts1 small-RepoLaws loads
      refl refl refl planned_runs

update-IsSupported_example : All IsSupported ts1.hypotheses
update-IsSupported_example =
    update-IsSupported small "p" "t-1" "bob" "later" plan_patch w0 w1 start ts1 loads planned_runs
      tt

update-IsSplit_example : IsSplit ts1
update-IsSplit_example =
    update-IsSplit small "p" "t-1" "bob" "later" plan_patch w0 w1 start ts1 loads planned_runs
      Perm.rfl

update-IsGrounded_example :
    (added : List TaskFact) × (ts1.known_facts ≡ added)
    × AreAdded "later" "bob" (HasProvenance small w0 "p") plan_patch.add_facts added
update-IsGrounded_example =
    update-IsGrounded small "p" "t-1" "bob" "later" plan_patch w0 w1 start ts1 loads planned_runs

abbrev subject_op : String → String → HypothesisOp
subject_op id subject = record {
  id = id;
  claim = "a claim";
  subject_id = subject;
  status = "";
  confidence = none;
  evidence_for = [];
  evidence_against = [];
}

abbrev missing_patch : TaskPatch
missing_patch = record no_patch { hypotheses = subject_op "hyp-9" "file:a.go" ∷ [] }

missing_runs :
    update small "p" "t-1" "bob" "later" missing_patch w0
    ≡ (err no_hypothesis, (update small "p" "t-1" "bob" "later" missing_patch w0).1)
unfolding load find_in update update_loaded version_conflict stage_fields refs_ok all_exist
    add_facts check_fact kind_or_inference complete_steps index_of remove_at resolve_unknowns
    unique_strings unique_from add_validation add_tool_results update_staged apply_hypotheses
    apply_hypothesis append_hypothesis new_hypothesis register revise with_confidence with_evidence
    with_status status_gate out_of_range change_state save allowed evidence_exists is_blank
    trim_space trim_left trim_right is_space str_mem successors float_half float_one revise_existing
    last_index
missing_runs = refl

update_atomic_example : (update small "p" "t-1" "bob" "later" missing_patch w0).1 ≡ w0
update_atomic_example =
    update_atomic small "p" "t-1" "bob" "later" missing_patch w0
      (update small "p" "t-1" "bob" "later" missing_patch w0).1 no_hypothesis
      (inl (λ e. ground (arith, str_eq_iff "hyp-9" "")), tt) missing_runs

-- The node of a new hypothesis stays when the transition after it is refused.
leaves_a_node :
    update small "p" "t-1" "bob" "later"
      (record no_patch { state = "VALIDATED"; hypotheses = subject_op "" "file:a.go" ∷ [] })
      w0
    ≡ (err illegal_transition, record w0 { written = 1 })
unfolding load find_in update update_loaded version_conflict stage_fields refs_ok all_exist
    add_facts check_fact kind_or_inference complete_steps index_of remove_at resolve_unknowns
    unique_strings unique_from add_validation add_tool_results update_staged apply_hypotheses
    apply_hypothesis append_hypothesis new_hypothesis register revise with_confidence with_evidence
    with_status status_gate out_of_range change_state save allowed evidence_exists is_blank
    trim_space trim_left trim_right is_space str_mem successors float_half float_one is_invalid
    subject_node
leaves_a_node = refl
