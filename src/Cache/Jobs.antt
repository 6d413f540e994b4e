-- ===== src/Cache/Jobs.antt =====
-- JobRegistry (internal/cache/semantic.go): the jobs in progress. A pointer to a job is the number of
-- the call that made it; the channel and the fields of a job are read and written by nothing here.
use code_rag.Common.{
  ℕ, ◌+◌, ◌<◌, ◌≢◌, String, false, Option, none, some, List, [], ◌∷◌, ◌≡◌, arith, str_eq,
  str_eq_iff, All, if◌then◌else◌,
}

pub record JobRegistry : Type 0 where
  pub jobs : List (String × ℕ)
  pub next : ℕ

unfoldable pub new_job_registry : JobRegistry
new_job_registry = record { jobs = []; next = 0 }

unfoldable pub find_job : String → List (String × ℕ) → Option ℕ
find_job key [] = none
find_job key ((k, job) ∷ jobs) = if str_eq k key then some job else find_job key jobs

unfoldable pub acquire : String → JobRegistry → ℕ × JobRegistry
acquire key j = elim (find_job key j.jobs) [
  | some job ↦ (job, j)
  | none ↦ (j.next, record { jobs = (key, j.next) ∷ j.jobs; next = j.next + 1 })
]

unfoldable pub delete_job : String → List (String × ℕ) → List (String × ℕ)
delete_job key [] = []
delete_job key ((k, job) ∷ jobs) =
    let rest = delete_job key jobs in if str_eq k key then rest else (k, job) ∷ rest

unfoldable pub release : String → JobRegistry → JobRegistry
release key j = record j { jobs = delete_job key j.jobs }

unfoldable pub get : String → JobRegistry → Option ℕ
get key j = find_job key j.jobs

-- Every job was made earlier.
abbrev pub IsMade : JobRegistry → Type 0
IsMade j = All (λ e. e.1 < j.next) j.jobs

find_job-lt :
    (key : String) (n : ℕ) (jobs : List (String × ℕ)) (job : ℕ)
    → All (λ e. e.1 < n) jobs
    → find_job key jobs ≡ some job
    → job < n
unfolding find_job
find_job-lt key n [] job h e = cc
find_job-lt key n ((k, j) ∷ jobs) job h e = ground (arith, find_job-lt key n jobs job)

find_job-delete_job :
    (key other : String) (jobs : List (String × ℕ))
    → find_job other (delete_job key jobs)
      ≡ (if str_eq key other then none else find_job other jobs)
unfolding find_job delete_job
find_job-delete_job key other [] = ground arith
find_job-delete_job key other ((k, j) ∷ jobs) = ground (
  arith,
  str_eq_iff k key,
  str_eq_iff k other,
  str_eq_iff key other,
  find_job-delete_job key other jobs,
)

-- Two calls of Acquire with one key get one job, and no other key's job changes; after a Release the key
-- has no job and the next Acquire makes one that no key has had.
pub acquire-release :
    (key other : String) (j : JobRegistry)
    → IsMade j
    → ((acquire key (acquire key j).1) ≡ (acquire key j))
      × (get key (acquire key j).1 ≡ some (acquire key j).0)
      × (str_eq key other ≡ false → get other (acquire key j).1 ≡ get other j)
      × (get key (release key j) ≡ none)
      × (str_eq key other ≡ false → get other (release key j) ≡ get other j)
      × ((job : ℕ) → get other j ≡ some job → (acquire key (release key j)).0 ≢ job)
unfolding acquire release get find_job
acquire-release key other j h = (
  ground (arith, str_eq_iff key key),
  ground (arith, str_eq_iff key key),
  ground (arith, str_eq_iff key other),
  ground (arith, find_job-delete_job key key j.jobs, str_eq_iff key key),
  ground (arith, find_job-delete_job key other j.jobs, str_eq_iff key other),
  λ job there. ground (
    arith,
    find_job-delete_job key key j.jobs,
    str_eq_iff key key,
    find_job-lt other j.next j.jobs job h there,
  ),
)
