-- ===== src/Task/Service.antt =====
-- TaskService: Create, Get, Update and Resume over a repository. Times, the new task's identifier
-- and the repository's HEAD are arguments or come from the repository.
use Prim.Native.String.{◌++◌ as str_append}
use code_rag.Common.{
  ℕ, suc, ◌+◌, String, Bool, false, Option, none, some, List, [], ◌∷◌, ◌++◌, ◌&&◌, not, ℤ, pos_part,
  neg_part, ◌==◌, str_eq, str_mem, is_blank, ltb, itoa, if◌then◌else◌,
}
use code_rag.Task.Types.{TaskState, TaskPatch, allowed, task_transitions}
use code_rag.Task.Types.{no_patch}
use code_rag.Task.Result.{ok, err, guard, not_found, corrupted, conflict, goal_required}
use code_rag.Task.Result.{bad_mode, not_indexed, ref_invalid, save_failed}
use code_rag.Task.Action.{Action, ◌>>=◌, ◌>>◌, lift, read}
use code_rag.Task.Repo.{Repo, RefStatus}
use code_rag.Task.Stages.{unique_strings, change_state}
use code_rag.Task.Fields.{refs_ok, stage_fields}
use code_rag.Task.Hypotheses.{apply_hypotheses}

abbrev pub valid_modes : List String
valid_modes = "" ∷ "explore" ∷ "implement" ∷ "reverse_engineer" ∷ "validate" ∷ "autonomous" ∷ []

-- *p.ExpectedVersion != ts.Version
unfoldable pub version_conflict : Option ℤ → ℕ → Bool
version_conflict none version = false
version_conflict (some v) version = not (pos_part v == version && neg_part v == 0)

-- the state that Create saves
abbrev pub fresh_task :
    String
    → String
    → String
    → String
    → List String
    → List String
    → String
    → String
    → String
    → TaskState
fresh_task project goal mode agent constraints refs uuid now head = record {
  task_id = str_append "t-" uuid;
  project_id = project;
  goal = goal;
  mode = mode;
  state = "UNKNOWN";
  current_step = "";
  plan = [];
  completed = [];
  pending = [];
  known_facts = [];
  unknowns = [];
  constraints = constraints;
  references = unique_strings refs;
  hypotheses = [];
  evidence = [];
  tool_results = [];
  failures = [];
  validation = [];
  next_action = "";
  created_by = agent;
  updated_by = agent;
  created_at = now;
  updated_at = now;
  revision = head;
  version = 1;
  history = record { from = ""; to = "UNKNOWN"; at = now; by = agent; reason = "created" } ∷ [];
}

-- the handoff entry, with the same state on both sides
abbrev pub handed_over : String → String → TaskState → TaskState
handed_over agent now ts = record ts {
  history =
      ts.history
      ++ record {
        from = ts.state;
        to = ts.state;
        at = now;
        by = agent;
        reason = str_append "resumed by " agent;
      }
        ∷ [];
  updated_by = agent;
  version = ts.version + 1;
}

abbrev pub stale_patch : ℕ → TaskPatch
stale_patch bad = record no_patch {
  state = "STALE";
  state_reason = str_append (itoa bad) " reference(s) no longer valid on resume";
}

module _ (R : Repo) where
  open R use {
    World, project_exists, find_task, upsert_task, marshal, unmarshal, resolve, head_revision,
  }

  -- load: the stored JSON of the first Task node with these identifiers
  unfoldable pub load : String → String → Action World TaskState
  load project task w = elim (find_task w project task) [
    | none ↦ (err not_found, w)
    | some blob ↦ elim (unmarshal blob) [ none ↦ (err corrupted, w) | some ts ↦ (ok ts, w) ]
  ]

  -- save; its error is returned beside the state
  unfoldable pub save : TaskState → Action World TaskState
  save ts w = elim (upsert_task w ts (marshal ts)) [
    | none ↦ (err save_failed, w)
    | some w' ↦ (ok ts, w')
  ]

  pub get : String → String → Action World TaskState
  get = load

  -- Create; `uuid` is the twelve hexadecimal digits that models.NewID gives
  unfoldable pub create :
      String
      → String
      → String
      → String
      → List String
      → List String
      → String
      → String
      → Action World TaskState
  create project goal mode agent constraints refs uuid now = do
    lift (guard (not (is_blank goal)) goal_required)
    lift (guard (str_mem mode valid_modes) bad_mode)
    indexed ← read (λ w. project_exists w project)
    lift (guard indexed not_indexed)
    known ← read (λ w. refs_ok R w project refs)
    lift (guard known ref_invalid)
    head ← read (λ w. head_revision w project)
    save (fresh_task project goal mode agent constraints refs uuid now head)

  -- the end of Update, from the hypotheses on
  unfoldable pub update_staged :
      String → String → String → TaskPatch → TaskState → Action World TaskState
  update_staged project agent now p staged = do
    hs ← apply_hypotheses R staged.project_id agent p.hypotheses staged.hypotheses
    moved ← lift (change_state p.state p.state_reason now agent (record staged { hypotheses = hs }))
    save (record moved { updated_by = agent; updated_at = now; version = moved.version + 1 })

  -- Update on the loaded task
  unfoldable pub update_loaded :
      String → String → String → TaskPatch → TaskState → Action World TaskState
  update_loaded project agent now p ts = do
    lift (guard (not (version_conflict p.expected_version ts.version)) conflict)
    staged ← (λ w. (stage_fields R w project agent now p ts, w))
    update_staged project agent now p staged

  -- Update; the fields are staged on a copy, which an error drops
  unfoldable pub update : String → String → String → String → TaskPatch → Action World TaskState
  update project task agent now p = do ts ← load project task; update_loaded project agent now p ts

  -- how many of the references do not resolve to VALID
  unfoldable pub bad_references : World → String → List String → ℕ
  bad_references w project [] = 0
  bad_references w project (ref ∷ refs) = elim (resolve w project ref) [
    | RefStatus.valid ↦ bad_references w project refs
    | _ ↦ suc (bad_references w project refs)
  ]

  unfoldable pub goes_stale : ℕ → TaskState → Bool
  goes_stale bad ts =
      ltb 0 bad
      && not (str_eq ts.state "STALE")
      && not (str_eq ts.state "VALIDATED")
      && allowed task_transitions ts.state "STALE"

  -- the new state, or the old one where the update is refused
  unfoldable pub keep_on_error : TaskState → Action World TaskState → Action World TaskState
  keep_on_error ts m w = let (r, w') = m w in elim r [ ok u ↦ (ok u, w') | err _ ↦ (ok ts, w') ]

  -- an error of save is ignored
  unfoldable pub hand_over : String → String → TaskState → Action World TaskState
  hand_over agent now ts w =
      let ts' = handed_over agent now ts in
      elim (upsert_task w ts' (marshal ts')) [ none ↦ (ok ts', w) | some w' ↦ (ok ts', w') ]

  -- the branches of Resume, where `bad` references are no longer valid
  unfoldable pub resume_loaded :
      String → String → String → String → ℕ → TaskState → Action World TaskState
  resume_loaded project task agent now bad ts =
      if goes_stale bad ts
      then keep_on_error ts (update project task agent now (stale_patch bad))
      else if not (str_eq agent "") && not (str_eq agent ts.updated_by)
      then hand_over agent now ts
      else lift (ok ts)

  -- Resume up to the checklist: the task, and how many of its references are no longer valid
  unfoldable pub resume : String → String → String → String → Action World (TaskState × ℕ)
  resume project task agent now = do
    ts ← load project task
    bad ← read (λ w. bad_references w project ts.references)
    ts' ← resume_loaded project task agent now bad ts
    lift (ok (ts', bad))
