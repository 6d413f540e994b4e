-- ===== src/Runtime/Queue/Ring.antt =====
-- Walking around the ring: positions, and the window of events between head and tail.
use native.Mathlib.Nat.{mod_self, mod-eq_of_lt}
use code_rag.Common.{
  ℕ, zero, suc, ◌+◌, ◌≤◌, ◌<◌, List, [], ◌∷◌, ◌++◌, ◌≡◌, ◌≢◌, refl, ◌⊎◌, inl, inr, arith, ap,
  length, set, get_or, get_or-set_ne, Bool-cases, ◌==◌, ==_iff,
}
use code_rag.Runtime.Queue.{next, ObservationEvent, no_event}

-- The position `k` places after `h`.
unfoldable pub steps : ℕ → ℕ → ℕ → ℕ
steps size h zero = h
steps size h (suc k) = steps size (next size h) k

-- The `k` events from the position `h` on.
unfoldable pub window : ℕ → List ObservationEvent → ℕ → ℕ → List ObservationEvent
window size events h zero = []
window size events h (suc k) = get_or events h no_event ∷ window size events (next size h) k

-- Where the next position is.
abbrev pub IsNext : ℕ → ℕ → ℕ → Type 0
IsNext size h n = ((h + 1 < size) × (n ≡ h + 1)) ⊎ ((h + 1 ≡ size) × (n ≡ 0))

pub next_cases : (size h : ℕ) → h < size → IsNext size h (next size h)
unfolding next
next_cases size h l = elim (Bool-cases (h + 1 == size)) [
  | inl e ↦
      let last : h + 1 ≡ size = ground (arith, ==_iff (h + 1) size) in
      inr (last, rw last (mod_self size))
  | inr e ↦
      let inside : h + 1 < size = ground (arith, ==_iff (h + 1) size) in
      inl (inside, mod-eq_of_lt inside)
]

pub next_lt : (size h : ℕ) → h < size → next size h < size
next_lt size h l = ground (arith, next_cases size h)

-- Where `k` steps lead, in numbers.
abbrev pub IsSteps : ℕ → ℕ → ℕ → ℕ → Type 0
IsSteps size h k p = ((h + k < size) × (p ≡ h + k)) ⊎ ((size ≤ h + k) × (p + size ≡ h + k))

pub steps_cases : (size h k : ℕ) → h < size → k ≤ size → IsSteps size h k (steps size h k)
unfolding steps
steps_cases size h zero l b = inl (omega arith, omega arith)
steps_cases size h (suc k) l b = elim (next_cases size h l) [
  | inl inside ↦ elim (steps_cases size (next size h) k (next_lt size h l) (omega arith)) [
    | inl s ↦ ground arith
    | inr s ↦ ground arith
  ]
  | inr wrapped ↦ elim (steps_cases size (next size h) k (next_lt size h l) (omega arith)) [
    | inl s ↦ ground arith
    | inr s ↦ ground arith
  ]
]

pub steps-suc : (size h k : ℕ) → steps size h (suc k) ≡ next size (steps size h k)
unfolding steps
steps-suc size h zero = refl
steps-suc size h (suc k) = steps-suc size (next size h) k

pub length-window :
    (size : ℕ) (events : List ObservationEvent) (h k : ℕ) → length (window size events h k) ≡ k
unfolding window
length-window size events h zero = refl
length-window size events h (suc k) = ap suc (length-window size events (next size h) k)

-- The window grows at its end.
pub window-snoc :
    (size : ℕ) (events : List ObservationEvent) (h k : ℕ)
    → window size events h (suc k)
      ≡ window size events h k ++ get_or events (steps size h k) no_event ∷ []
unfolding window steps
window-snoc size events h zero = refl
window-snoc size events h (suc k) =
    ap (◌∷◌ (get_or events h no_event)) (window-snoc size events (next size h) k)

-- A write outside the window does not change it.
pub window-set :
    (size : ℕ) (events : List ObservationEvent) (p : ℕ) (e : ObservationEvent) (h k : ℕ)
    → ((i : ℕ) → i < k → p ≢ steps size h i)
    → window size (set events p e) h k ≡ window size events h k
unfolding window steps
window-set size events p e h zero outside = refl
window-set size events p e h (suc k) outside =
    rw (get_or-set_ne events e no_event (first outside)) (
      ap (◌∷◌ (get_or events h no_event))
        (window-set size events p e (next size h) k (rest outside)))
  where
    first : ((i : ℕ) → i < suc k → p ≢ steps size h i) → p ≢ h
    first outside = outside 0 (omega arith)

    rest :
        ((i : ℕ) → i < suc k → p ≢ steps size h i)
        → (i : ℕ) → i < k
        → p ≢ steps size (next size h) i
    rest outside i b = outside (suc i) (omega arith)

-- The write at the tail, and the clearing of the head, are outside.
pub tail_outside :
    (size h k : ℕ) → h < size → k < size → (i : ℕ) → i < k → steps size h k ≢ steps size h i
tail_outside size h k l b i c e = elim (steps_cases size h k l (omega arith)) [
  | inl s ↦ elim (steps_cases size h i l (omega arith)) [
    | inl t ↦ ground arith
    | inr t ↦ ground arith
  ]
  | inr s ↦ elim (steps_cases size h i l (omega arith)) [
    | inl t ↦ ground arith
    | inr t ↦ ground arith
  ]
]

pub head_outside :
    (size h k : ℕ) → h < size → suc k ≤ size → (i : ℕ) → i < k → h ≢ steps size (next size h) i
unfolding steps
head_outside size h k l b i c e = elim (steps_cases size h (suc i) l (omega arith)) [
  | inl s ↦ ground arith
  | inr s ↦ ground arith
]
