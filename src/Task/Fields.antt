-- ===== src/Task/Fields.antt =====
-- The part of TaskService.Update between the version check and the hypotheses.
use Prim.Native.String.{len, slice}
use text.Mathlib.Text.{starts_with}
use code_rag.Common.{
  String, Bool, true, false, Option, none, some, List, [], ◌∷◌, ◌++◌, ◌||◌, ◌&&◌, not, str_eq, ltb,
  if◌then◌else◌,
}
use code_rag.Ids
use code_rag.Task.Types.{TaskState, TaskPatch}
use code_rag.Task.Result.{Result, ok, guard, ref_invalid, no_evidence, ◌>>=◌, ◌>>◌}
use code_rag.Task.Repo.{Repo}
use code_rag.Task.Stages.{unique_strings, add_facts, complete_steps, resolve_unknowns}
use code_rag.Task.Stages.{add_tool_results, add_validation}
use code_rag.Task.Hypotheses.{all_exist, is_invalid}

abbrev pub given_or : Option String → String → String
given_or none old = old
given_or (some new) old = new

-- strings.TrimPrefix(source, "evidence:")
unfoldable pub after_evidence : String → String
after_evidence source = slice source 9 (len source)

module _ (R : Repo) where
  open R use {World, get_node}

  -- checkRefs
  unfoldable pub refs_ok : World → String → List String → Bool
  refs_ok w project [] = true
  refs_ok w project (ref ∷ refs) = not (is_invalid R project w ref) && refs_ok w project refs

  -- provenanceOK: len(source) > len("tool:") is the test of the second case, whichever its prefix
  unfoldable pub provenance_ok : World → String → String → Bool
  provenance_ok w project source =
      if starts_with source "evidence:"
      then (elim (get_node w (after_evidence source)) [
        | none ↦ false
        | some n ↦ str_eq n.project_id project
      ])
      else if starts_with source "graph:" || starts_with source "tool:"
      then ltb 5 (len source)
      else if Ids.looks source
      then not (is_invalid R project w source)
      else false

  -- what is read of the repository is fixed: nothing is written before the hypotheses
  unfoldable pub stage_fields :
      World → String → String → String → TaskPatch → TaskState → Result TaskState
  stage_fields w project agent now p ts = do
    guard (refs_ok w project p.add_references) ref_invalid
    guard (all_exist R project w p.add_evidence) no_evidence
    facts ← add_facts (provenance_ok w project) now agent ts.known_facts p.add_facts
    steps ← complete_steps (ts.pending ++ p.add_plan) ts.completed p.complete_steps
    unknowns ← resolve_unknowns (unique_strings (ts.unknowns ++ p.add_unknowns)) p.resolve_unknowns
    validation ← add_validation now ts.validation p.add_validation
    ok (record ts {
      references = unique_strings (ts.references ++ p.add_references);
      evidence = unique_strings (ts.evidence ++ p.add_evidence);
      known_facts = facts;
      plan = ts.plan ++ p.add_plan;
      pending = steps.0;
      completed = steps.1;
      unknowns = unknowns;
      constraints = unique_strings (ts.constraints ++ p.add_constraints);
      tool_results = add_tool_results now agent ts.tool_results p.add_tool_results;
      failures = (if p.clear_failures then [] else ts.failures) ++ p.add_failures;
      validation = validation;
      current_step = given_or p.current_step ts.current_step;
      next_action = given_or p.next_action ts.next_action;
    })
