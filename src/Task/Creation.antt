-- ===== src/Task/Creation.antt =====
-- TaskService.Create: what stands before the first save, and what is saved.
use Prim.Native.String.{◌++◌ as str_append}
use code_rag.Common.{
  String, true, false, List, [], ◌∷◌, ◌≡◌, ◌≢◌, refl, ◌⊎◌, inl, arith, All, is_blank, str_eq_iff,
  str_mem, ap,
}
use code_rag.Task.Types.{TaskState}
use code_rag.Task.Result.{ok}
use code_rag.Task.Repo.{Repo, RefStatus}
use code_rag.Task.Fields.{refs_ok}
use code_rag.Task.Hypotheses.{is_invalid}
use code_rag.Task.Service.{load, save, create, fresh_task, valid_modes}
use code_rag.Task.Chain.{HasHistory}
use code_rag.Task.Versions.{RepoLaws}

-- The empty mode is allowed too.
abbrev pub IsMode : String → Type 0
IsMode mode =
    (mode ≡ "")
    ⊎ (mode ≡ "explore")
    ⊎ (mode ≡ "implement")
    ⊎ (mode ≡ "reverse_engineer")
    ⊎ (mode ≡ "validate")
    ⊎ (mode ≡ "autonomous")

-- What Create asks before it saves: a goal, a mode, an indexed project, and references that resolve.
abbrev pub HasGuards : (R : Repo) → String → String → String → List String → R.World → Type 0
HasGuards R project goal mode refs w =
    (is_blank goal ≡ false)
    × IsMode mode
    × (R.project_exists w project ≡ true)
    × All (λ ref. R.resolve w project ref ≢ RefStatus.invalid) refs

valid_modes-IsMode : (mode : String) → str_mem mode valid_modes ≡ true → IsMode mode
unfolding str_mem
valid_modes-IsMode mode e = ground (
  arith,
  str_eq_iff "" mode,
  str_eq_iff "explore" mode,
  str_eq_iff "implement" mode,
  str_eq_iff "reverse_engineer" mode,
  str_eq_iff "validate" mode,
  str_eq_iff "autonomous" mode,
)

module _ (R : Repo) where
  open R use {World, head_revision, resolve}

  refs_ok-All :
      (w : World) (project : String) (refs : List String)
      → refs_ok R w project refs ≡ true
      → All (λ ref. resolve w project ref ≢ RefStatus.invalid) refs
  unfolding refs_ok is_invalid
  refs_ok-All w project [] e = tt
  refs_ok-All w project (ref ∷ refs) e =
      (λ r. ground arith, refs_ok-All w project refs (ground arith))

  -- Over a repository that finds a stored task again and decodes it to itself: when Create succeeds, the
  -- goal is not blank, the mode is empty or one of the five, the project is indexed and no reference
  -- resolves to INVALID; the new task loads as it was returned, with the goal and the mode that were given;
  -- it is in UNKNOWN at version 1; and its history is a path from the creation to this state.
  pub create_lem :
      (project goal mode agent : String) (constraints refs : List String) (uuid now : String)
      (w w' : World) (ts : TaskState)
      → RepoLaws R
      → create R project goal mode agent constraints refs uuid now w ≡ (ok ts, w')
      → HasGuards R project goal mode refs w
        × (load R project (str_append "t-" uuid) w' ≡ (ok ts, w'))
        × HasHistory ts
        × ((ts.goal ≡ goal) × (ts.mode ≡ mode) × (ts.state ≡ "UNKNOWN") × (ts.version ≡ 1))
  unfolding create save load
  create_lem project goal mode agent constraints refs uuid now w w' ts laws e =
      let fresh =
        fresh_task project goal mode agent constraints refs uuid now (head_revision w project) in
      let same : ts ≡ fresh = ground arith in
      (
        (
          ground arith,
          valid_modes-IsMode mode (ground arith),
          ground arith,
          refs_ok-All w project refs (ground arith),
        ),
        ground (arith, laws.found_after w w' fresh (R.marshal fresh), laws.decodes fresh),
        rw same (refl, inl (refl, refl), refl),
        (
          ap (λ t. t.goal) same,
          ap (λ t. t.mode) same,
          ap (λ t. t.state) same,
          ap (λ t. t.version) same,
        ),
      )
