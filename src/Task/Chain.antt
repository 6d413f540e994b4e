-- ===== src/Task/Chain.antt =====
-- The history of a task is a path through the state machine, from its creation to its state.
use code_rag.Common.{ℕ, String, true, List, [], ◌∷◌, ◌++◌, ◌≡◌, refl, ◌⊎◌, inl, inr, ◌∙◌, arith}
use code_rag.Task.Types.{TaskState, TaskPatch, Transition, allowed, task_transitions}
use code_rag.Task.Result.{ok}
use code_rag.Task.Repo.{Repo}
use code_rag.Task.Service.{load, update, resume}
use code_rag.Task.Service.{handed_over, resume_loaded, keep_on_error, hand_over, stale_patch}
use code_rag.Task.History.{Moves, stays, goes, update-Moves}

-- An entry is the creation, a transition of the table, or a handoff, which changes no state.
abbrev pub IsLegal : Transition → Type 0
IsLegal e =
    ((e.from ≡ "") × (e.to ≡ "UNKNOWN"))
    ⊎ (allowed task_transitions e.from e.to ≡ true)
    ⊎ (e.from ≡ e.to)

-- Each entry is legal and starts where the one before it ended.
abbrev pub Chain : String → List Transition → String → Type 0
Chain s [] t = s ≡ t
Chain s (e ∷ es) t = (s ≡ e.from) × IsLegal e × Chain e.to es t

abbrev pub HasHistory : TaskState → Type 0
HasHistory ts = Chain "" ts.history ts.state

Chain-snoc :
    (s t : String) (es : List Transition) (e : Transition)
    → Chain s es t
    → t ≡ e.from
    → IsLegal e
    → Chain s (es ++ e ∷ []) e.to
Chain-snoc s t [] e c from legal = (c ∙ from, legal, refl)
Chain-snoc s t (f ∷ es) e c from legal = (c.0, c.1, Chain-snoc f.to t es e c.2 from legal)

Moves-HasHistory :
    {now agent reason : String} (ts ts' : TaskState)
    → Moves now agent reason ts ts'
    → HasHistory ts
    → HasHistory ts'
Moves-HasHistory ts ts' (stays state history) c = rw (state, history) c
Moves-HasHistory ts ts' (goes legal gate history) c =
    rw history (Chain-snoc "" ts.state ts.history _ c refl (inr (inl legal)))

handed_over-HasHistory :
    (agent now : String) (ts : TaskState) → HasHistory ts → HasHistory (handed_over agent now ts)
handed_over-HasHistory agent now ts c = Chain-snoc "" ts.state ts.history _ c refl (inr (inr refl))

module _ (R : Repo) where
  open R use {World, head_revision}

  -- A successful update extends a legal history to a legal history.
  pub update-HasHistory :
      (project task agent now : String) (p : TaskPatch) (w w' : World) (ts ts' : TaskState)
      → load R project task w ≡ (ok ts, w)
      → update R project task agent now p w ≡ (ok ts', w')
      → HasHistory ts
      → HasHistory ts'
  update-HasHistory project task agent now p w w' ts ts' l e c =
      let (u, loaded, m) = update-Moves R project agent now p task w w' ts' e in
      let same : ts ≡ u = ground arith in Moves-HasHistory u ts' m (rw same at c)

  resume_loaded_cases :
      (project task agent now : String) (bad : ℕ) (w w' : World) (ts ts' : TaskState)
      → resume_loaded R project task agent now bad ts w ≡ (ok ts', w')
      → (update R project task agent now (stale_patch bad) w ≡ (ok ts', w'))
        ⊎ (ts' ≡ handed_over agent now ts)
        ⊎ (ts' ≡ ts)
  unfolding resume_loaded keep_on_error hand_over
  resume_loaded_cases project task agent now bad w w' ts ts' e = ground arith

  load_keeps_world : (project task : String) (w : World) → (load R project task w).1 ≡ w
  unfolding load
  load_keeps_world project task w = ground arith

  resume-eq-ok :
      (project task agent now : String) (w w' : World) (ts ts' : TaskState) (bad : ℕ)
      → load R project task w ≡ (ok ts, w)
      → resume R project task agent now w ≡ (ok (ts', bad), w')
      → resume_loaded R project task agent now bad ts w ≡ (ok ts', w')
  unfolding resume
  resume-eq-ok project task agent now w w' ts ts' bad l e = ground arith

  -- A successful resume extends a legal history to a legal history, whether it marks the task STALE,
  -- logs a handoff or does neither.
  pub resume-HasHistory :
      (project task agent now : String) (w w' : World) (ts ts' : TaskState) (bad : ℕ)
      → load R project task w ≡ (ok ts, w)
      → resume R project task agent now w ≡ (ok (ts', bad), w')
      → HasHistory ts
      → HasHistory ts'
  resume-HasHistory project task agent now w w' ts ts' bad l e c =
      elim (resume_loaded_cases project task agent now bad w w' ts ts'
        (resume-eq-ok project task agent now w w' ts ts' bad l e)) [
          | inl updated ↦
              update-HasHistory project task agent now (stale_patch bad) w w' ts ts' l updated c
          | inr (inl handoff) ↦ rw handoff (handed_over-HasHistory agent now ts c)
          | inr (inr same) ↦ rw same c
        ]
