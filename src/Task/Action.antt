-- ===== src/Task/Action.antt =====
-- Actions that read and write the state of the world. An action that fails keeps what it wrote
-- before it failed.
use code_rag.Common.{◌≡◌, refl}
use code_rag.Task.Result.{Result, ok, err}

abbrev pub Action : Type 0 → Type 0 → Type 0
Action W A = W → Result A × W

abbrev pub and_then : {W A B : Type 0} → Result A → W → (A → Action W B) → Result B × W
and_then (ok a) w f = f a w
and_then (err e) w f = (err e, w)

infixl 5 ◌>>=◌ ◌>>◌
abbrev pub ◌>>=◌ : {W A B : Type 0} → Action W A → (A → Action W B) → Action W B
◌>>=◌ m f w = and_then (m w).0 (m w).1 f

abbrev pub ◌>>◌ : {W B : Type 0} → Action W (Unit {0}) → Action W B → Action W B
m >> k = m >>= λ _. k

abbrev pub lift : {W A : Type 0} → Result A → Action W A
lift r w = (r, w)

abbrev pub read : {W A : Type 0} → (W → A) → Action W A
read f w = (ok (f w), w)

pub and_then-eq-ok :
    {W A B : Type 0} (r : Result A) (w : W) (f : A → Action W B) {b : B} {w' : W}
    → and_then r w f ≡ (ok b, w')
    → (a : A) × (r ≡ ok a) × (f a w ≡ (ok b, w'))
and_then-eq-ok (ok a) w f h = (a, refl, h)
and_then-eq-ok (err e) w f h = cc

-- A successful chain of two actions is a successful first one and a successful second one.
pub >>=-eq-ok :
    {W A B : Type 0} (m : Action W A) (f : A → Action W B) (w : W) {b : B} {w'' : W}
    → (m >>= f) w ≡ (ok b, w'')
    → (a : A) × (w' : W) × (m w ≡ (ok a, w')) × (f a w' ≡ (ok b, w''))
>>=-eq-ok m f w h =
    let (a, e, k) = and_then-eq-ok (m w).0 (m w).1 f h in (a, (m w).1, λ i. (e i, (m w).1), k)
