-- ===== src/Task/Stages.antt =====
-- The steps of TaskService.Update that need nothing from the repository, one function for each loop
-- of the source over the fields that it changes.
use code_rag.Common.{
  ℕ, suc, String, Bool, true, false, Option, none, some, List, [], ◌∷◌, ◌++◌, ◌||◌, str_eq, str_mem,
  is_blank, take, drop, if◌then◌else◌,
}
use code_rag.Task.Types.{TaskFact, ValidationEntry, ToolResult, TaskState, Transition}
use code_rag.Task.Types.{task_transitions, allowed}
use code_rag.Task.Result.{Result, ok, err, no_fact_text, no_provenance, no_source, bad_fact_kind}
use code_rag.Task.Result.{not_pending, not_open, bad_validation_status, ◌>>=◌, ◌>>◌}
use code_rag.Task.Result.{illegal_transition, no_validation, failing_validation}

-- uniqueStrings(in, "") of treesitter_funcs.go; `seen` is the map of the loop
unfoldable pub unique_from : List String → List String → List String
unfolding str_mem
unique_from seen [] = []
unique_from seen (s ∷ rest) =
    let kept = s ∷ unique_from (s ∷ seen) rest in
    let skipped = unique_from seen rest in if str_mem s seen then skipped else kept

unfoldable pub unique_strings : List String → List String
unique_strings = unique_from ("" ∷ [])

-- indexOf of analysis.go; -1 is `none`
unfoldable pub index_of : List String → String → Option ℕ
index_of [] s = none
index_of (x ∷ xs) s =
    if str_eq x s then some 0 else elim (index_of xs s) [ none ↦ none | some i ↦ some (suc i) ]

-- append(l[:i], l[i+1:]...)
unfoldable pub remove_at : ℕ → List String → List String
remove_at i l = take i l ++ drop (suc i) l

unfoldable pub kind_or_inference : String → String
kind_or_inference kind = if str_eq kind "" then "INFERENCE" else kind

module _ (provenance_ok : String → Bool) (now agent : String) where
  -- one round of the loop over `p.AddFacts`: the fact as it is stored
  unfoldable pub check_fact : TaskFact → Result TaskFact
  check_fact f =
      let kind = kind_or_inference f.kind in
      let stamped = record f { kind = kind; at = now; by = agent } in
      if is_blank f.text
      then err no_fact_text
      else if str_eq kind "FACT"
      then (if provenance_ok f.source then ok stamped else err no_provenance)
      else if str_eq kind "OBSERVATION"
      then (if str_eq f.source "" then err no_source else ok stamped)
      else if str_eq kind "INFERENCE"
      then ok stamped
      else err bad_fact_kind

  unfoldable pub add_facts : List TaskFact → List TaskFact → Result (List TaskFact)
  add_facts known [] = ok known
  add_facts known (f ∷ fs) = do f' ← check_fact f; add_facts (known ++ f' ∷ []) fs

-- the loop over `p.CompleteStep`, on `ts.Pending` and `ts.Completed`
unfoldable pub complete_steps :
    List String → List String → List String → Result (List String × List String)
complete_steps pending completed [] = ok (pending, completed)
complete_steps pending completed (step ∷ steps) = elim (index_of pending step) [
  | none ↦ err not_pending
  | some i ↦ complete_steps (remove_at i pending) (completed ++ step ∷ []) steps
]

-- the loop over `p.ResolveUnknowns`
unfoldable pub resolve_unknowns : List String → List String → Result (List String)
resolve_unknowns unknowns [] = ok unknowns
resolve_unknowns unknowns (u ∷ us) = elim (index_of unknowns u) [
  | none ↦ err not_open
  | some i ↦ resolve_unknowns (remove_at i unknowns) us
]

-- the loop over `p.AddToolResults`
unfoldable pub add_tool_results :
    String → String → List ToolResult → List ToolResult → List ToolResult
add_tool_results now agent results [] = results
add_tool_results now agent results (r ∷ rs) =
    add_tool_results now agent (results ++ record r { at = now; by = agent } ∷ []) rs

-- the loop over `p.AddValidation`
unfoldable pub add_validation :
    String → List ValidationEntry → List ValidationEntry → Result (List ValidationEntry)
add_validation now entries [] = ok entries
add_validation now entries (v ∷ vs) =
    let rest = add_validation now (entries ++ record v { at = now } ∷ []) vs in
    if str_eq v.status "passed" || str_eq v.status "failed" then rest else err bad_validation_status

-- `latest[v.Name] = v`
unfoldable pub put_latest : ValidationEntry → List ValidationEntry → List ValidationEntry
put_latest v [] = v ∷ []
put_latest v (w ∷ ws) = if str_eq w.name v.name then v ∷ ws else w ∷ put_latest v ws

unfoldable pub latest_from : List ValidationEntry → List ValidationEntry → List ValidationEntry
latest_from latest [] = latest
latest_from latest (v ∷ vs) = latest_from (put_latest v latest) vs

-- whether the list `failing` stays empty
unfoldable pub all_passed : List ValidationEntry → Bool
all_passed [] = true
all_passed (v ∷ vs) = if str_eq v.status "passed" then all_passed vs else false

unfoldable pub validation_gate : List ValidationEntry → Result (Unit {0})
validation_gate [] = err no_validation
validation_gate (v ∷ vs) =
    if all_passed (latest_from [] (v ∷ vs)) then ok tt else err failing_validation

-- the state change at the end of Update
unfoldable pub change_state : String → String → String → String → TaskState → Result TaskState
change_state state reason now agent ts =
    let entry : Transition = record {
      from = ts.state;
      to = state;
      at = now;
      by = agent;
      reason = reason;
    } in
    let moved = record ts { state = state; history = ts.history ++ entry ∷ [] } in
    if str_eq state "" || str_eq state ts.state
    then ok ts
    else if allowed task_transitions ts.state state
    then (if str_eq state "VALIDATED"
        then (validation_gate ts.validation >> ok moved)
        else ok moved)
    else err illegal_transition
