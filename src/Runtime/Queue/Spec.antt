-- ===== src/Runtime/Queue/Spec.antt =====
-- What the queue promises: a bounded first-in first-out list of events, and the policy on a full one.
use code_rag.Common.{
  ℕ, String, Bool, true, false, List, [], ◌∷◌, ◌++◌, ltb, str_eq, length, drop, if◌then◌else◌,
}

-- The events that wait, oldest first, and whether the queue accepted the new one.
unfoldable pub push {ℓ} : {A : Type ℓ} → ℕ → String → A → List A → Bool × List A
push room policy x xs =
    if ltb (length xs) room
    then (true, xs ++ x ∷ [])
    else if str_eq policy "oldest"
    then (true, drop 1 xs ++ x ∷ [])
    else (false, xs)

pub data Command {ℓ} (A : Type ℓ) : Type ℓ where
  send : A → Command A
  receive_all : Command A

-- What a caller sees of a command.
pub data Output {ℓ} (A : Type ℓ) : Type ℓ where
  accepted : Bool → Output A
  received : List A → Output A

unfoldable pub spec_step {ℓ} : {A : Type ℓ} → ℕ → String → Command A → List A → Output A × List A
spec_step room policy (send x) xs = let (b, ys) = push room policy x xs in (accepted b, ys)
spec_step room policy receive_all xs = (received xs, [])

unfoldable pub spec_run {ℓ} :
    {A : Type ℓ} → ℕ → String → List (Command A) → List A → List (Output A)
spec_run room policy [] xs = []
spec_run room policy (c ∷ cs) xs =
    let (o, ys) = spec_step room policy c xs in o ∷ spec_run room policy cs ys
