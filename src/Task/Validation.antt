-- ===== src/Task/Validation.antt =====
-- What the gate in front of VALIDATED means: the last entry of every validation that was run.
use code_rag.Common.{
  String, true, Option, none, some, List, [], ◌∷◌, ◌≡◌, refl, ◌≢◌, ◌↔◌, arith, str_eq, str_eq_iff,
  Bool-cases, Option-cases, inl, inr, sym, ◌∙◌, if◌then◌else◌,
}
use code_rag.Task.Types.{ValidationEntry}
use code_rag.Task.Result.{ok}
use code_rag.Task.Stages.{put_latest, latest_from, all_passed, validation_gate}

-- The last entry with a name: what "the latest result" of that validation means.
unfoldable pub last_named : String → List ValidationEntry → Option ValidationEntry
last_named n [] = none
last_named n (v ∷ vs) = elim (last_named n vs) [
  | some w ↦ some w
  | none ↦ if str_eq v.name n then some v else none
]

find_named : String → List ValidationEntry → Option ValidationEntry
find_named n [] = none
find_named n (v ∷ vs) = if str_eq v.name n then some v else find_named n vs

find_named-put_latest :
    (n : String) (v : ValidationEntry) (l : List ValidationEntry)
    → find_named n (put_latest v l) ≡ (if str_eq v.name n then some v else find_named n l)
unfolding find_named put_latest
find_named-put_latest n v [] = refl
find_named-put_latest n v (w ∷ l) = ground (
  arith,
  str_eq_iff w.name v.name,
  str_eq_iff v.name n,
  str_eq_iff w.name n,
  find_named-put_latest n v l,
)

find_named-latest_from :
    (n : String) (l vs : List ValidationEntry)
    → find_named n (latest_from l vs)
      ≡ elim (last_named n vs) [ some w ↦ some w | none ↦ find_named n l ]
unfolding latest_from last_named
find_named-latest_from n l [] = refl
find_named-latest_from n l (v ∷ vs) =
    ground (arith, find_named-latest_from n (put_latest v l) vs, find_named-put_latest n v l)

-- Each name has one entry.
abbrev Distinct : List ValidationEntry → Type 0
Distinct [] = Unit
Distinct (v ∷ vs) = (find_named v.name vs ≡ none) × Distinct vs

put_latest-Distinct :
    (v : ValidationEntry) (l : List ValidationEntry) → Distinct l → Distinct (put_latest v l)
unfolding put_latest find_named
put_latest-Distinct v [] d = (refl, tt)
put_latest-Distinct v (w ∷ l) d = ground (
  arith,
  str_eq_iff w.name v.name,
  str_eq_iff v.name w.name,
  find_named-put_latest w.name v l,
  put_latest-Distinct v l d.1,
)

latest_from-Distinct : (l vs : List ValidationEntry) → Distinct l → Distinct (latest_from l vs)
unfolding latest_from
latest_from-Distinct l [] d = d
latest_from-Distinct l (v ∷ vs) d =
    latest_from-Distinct (put_latest v l) vs (put_latest-Distinct v l d)

abbrev pub AllPassed : (String → Option ValidationEntry) → Type 0
AllPassed find = (n : String) (v : ValidationEntry) → find n ≡ some v → v.status ≡ "passed"

all_passed-find :
    (l : List ValidationEntry) (n : String) (v : ValidationEntry)
    → all_passed l ≡ true
    → find_named n l ≡ some v
    → v.status ≡ "passed"
unfolding all_passed find_named
all_passed-find [] n v h e = cc
all_passed-find (w ∷ l) n v h e =
    ground (arith, str_eq_iff w.status "passed", str_eq_iff w.name n, all_passed-find l n v)

tail-AllPassed :
    (w : ValidationEntry) (l : List ValidationEntry)
    → find_named w.name l ≡ none
    → AllPassed (λ n. find_named n (w ∷ l))
    → AllPassed (λ n. find_named n l)
unfolding find_named
tail-AllPassed w l d h n v e = elim (Bool-cases (str_eq w.name n)) [
  | inl q ↦ absurd (ground (arith, str_eq_iff w.name n))
  | inr q ↦ h n v (rw q e)
]

find-all_passed :
    (l : List ValidationEntry) → Distinct l → AllPassed (λ n. find_named n l) → all_passed l ≡ true
unfolding all_passed find_named
find-all_passed [] d h = refl
find-all_passed (w ∷ l) d h =
    rw ((str_eq_iff w.status "passed").1 (h w.name w (rw ((str_eq_iff w.name w.name).1 refl))))
      (find-all_passed l d.1 (tail-AllPassed w l d.0 h))

find_named-latest :
    (n : String) (vs : List ValidationEntry) → find_named n (latest_from [] vs) ≡ last_named n vs
unfolding find_named
find_named-latest n vs = elim (Option-cases (last_named n vs)) [
  | inl e ↦ ground (arith, find_named-latest_from n [] vs)
  | inr (v, e) ↦ ground (arith, find_named-latest_from n [] vs)
]

-- The gate opens exactly when a validation was recorded, and the last entry of each one passed.
pub validation_gate_iff :
    (vs : List ValidationEntry)
    → (validation_gate vs ≡ ok tt) ↔ ((vs ≢ []) × AllPassed (λ n. last_named n vs))
unfolding validation_gate
validation_gate_iff [] = (λ h. cc, λ h. absurd (h.0 refl))
validation_gate_iff (v ∷ vs) = (
  λ h. (
    λ e. cc,
    λ n w e. all_passed-find latest n w (ground arith) (find_named-latest n (v ∷ vs) ∙ e),
  ),
  λ h. rw (
      find-all_passed latest (latest_from-Distinct [] (v ∷ vs) tt)
        (λ n w e. h.1 n w (sym (find_named-latest n (v ∷ vs)) ∙ e))),
)
  where
    latest : List ValidationEntry
    latest = latest_from [] (v ∷ vs)
