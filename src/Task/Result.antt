-- ===== src/Task/Result.antt =====
-- Errors as values, and actions that read and write the state of the world. An action that fails
-- keeps what it wrote before it failed.
use code_rag.Common.{Bool, true, false, ◌≡◌, refl, ◌⊎◌, inl, inr}

-- Why an operation is refused: one constructor for each message.
pub data TaskError : Type 0 where
  not_found corrupted conflict goal_required bad_mode not_indexed : TaskError
  ref_invalid no_evidence no_fact_text no_provenance no_source bad_fact_kind : TaskError
  not_pending not_open bad_validation_status : TaskError
  no_claim bad_confidence no_hypothesis illegal_hypothesis unsupported contradicting : TaskError
  illegal_transition no_validation failing_validation save_failed : TaskError

pub data Result {ℓ} (A : Type ℓ) : Type ℓ where
  ok : A → Result A
  err : TaskError → Result A

-- A test of the code that returns an error when it fails.
abbrev pub guard : (passes : Bool) → (why : TaskError) → Result (Unit {0})
guard false why = err why
guard true why = ok tt

pub guard-eq-ok :
    (passes : Bool) (why : TaskError) {u : Unit {0}} → guard passes why ≡ ok u → passes ≡ true
guard-eq-ok false why h = cc
guard-eq-ok true why h = refl

module _ {ℓ κ} {A : Type ℓ} {B : Type κ} where
  infixl 5 ◌>>=◌
  abbrev pub ◌>>=◌ : Result A → (A → Result B) → Result B
  err why >>= next = err why
  ok value >>= next = next value

  pub >>=-eq-ok :
      (r : Result A) (next : A → Result B) {result : B}
      → (r >>= next) ≡ ok result
      → (value : A) × (r ≡ ok value) × (next value ≡ ok result)
  >>=-eq-ok (err why) next h = cc
  >>=-eq-ok (ok value) next h = (value, refl, h)

module _ {ℓ} {A : Type ℓ} where
  infixl 5 ◌>>◌
  abbrev pub ◌>>◌ : Result (Unit {0}) → Result A → Result A
  test >> rest = test >>= λ _. rest

  pub Result-cases :
      (r : Result A) → ((value : A) × (r ≡ ok value)) ⊎ ((why : TaskError) × (r ≡ err why))
  Result-cases (err why) = inr (why, refl)
  Result-cases (ok value) = inl (value, refl)
