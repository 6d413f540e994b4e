-- ===== src/Common/Parts.antt =====
-- The two parts of a list: the first elements, which `take` gives, and the others.
use Prim.Native.Nat.{ℕ, zero, suc, ◌≤◌}
use mathlib.Core.Path.{◌≡◌, refl, ap}
use mathlib.Core.List.{List, [], ◌∷◌, ◌++◌, Perm, append_assoc, perm_append_comm}
use mathlib.Core.List.Perm
use code_rag.Common.Lists.{length, take, drop, All, All-drop}
use code_rag.Common.Sort.{Ordered}
use native.Mathlib.Omega.{arith}

module _ {ℓ} {A : Type ℓ} where
  pub take-drop : (m : ℕ) (xs : List A) → take m xs ++ drop m xs ≡ xs
  take-drop zero xs = refl
  take-drop (suc m) [] = refl
  take-drop (suc m) (x ∷ xs) = ap (λ t. x ∷ t) (take-drop m xs)

  pub drop_all : (m : ℕ) (xs : List A) → length xs ≤ m → drop m xs ≡ []
  drop_all zero [] h = refl
  drop_all zero (x ∷ xs) h = absurd (omega arith)
  drop_all (suc m) [] h = refl
  drop_all (suc m) (x ∷ xs) h = drop_all m xs (omega arith)

  pub All-take {κ} : (P : A → Type κ) (m : ℕ) (xs : List A) → All P xs → All P (take m xs)
  All-take P zero xs h = tt
  All-take P (suc m) [] h = tt
  All-take P (suc m) (x ∷ xs) h = (h.0, All-take P m xs h.1)

  pub All-both {κ} :
      (P Q : A → Type κ) (xs : List A) → All P xs → All Q xs → All (λ x. P x × Q x) xs
  All-both P Q [] h k = tt
  All-both P Q (x ∷ xs) h k = ((h.0, k.0), All-both P Q xs h.1 k.1)

  -- In an ordered list what is taken is related to what is dropped.
  pub Ordered-take-drop {κ} :
      (Q : A → A → Type κ) (m : ℕ) (xs : List A)
      → Ordered Q xs
      → All (λ x. All (Q x) (drop m xs)) (take m xs)
  Ordered-take-drop Q zero xs h = tt
  Ordered-take-drop Q (suc m) [] h = tt
  Ordered-take-drop Q (suc m) (x ∷ xs) h = (All-drop (Q x) m xs h.0, Ordered-take-drop Q m xs h.1)

  pub swap_parts : (k l ks ls : List A) → Perm ((k ++ ks) ++ (l ++ ls)) ((k ++ l) ++ (ks ++ ls))
  swap_parts k l ks ls =
      rw (append_assoc k ks (l ++ ls), append_assoc k l (ks ++ ls))
        (Perm.append_left k (
          rw (← append_assoc ks l ls, ← append_assoc l ks ls)
            (Perm.append_right ls (perm_append_comm ks l))))
