-- ===== src/Common/Sort.antt =====
-- Stable sorting by a Boolean order, and by whether one text comes before another.
use Prim.Native.Nat.{suc, Ordering}
use Prim.Native.Char.{Char, code}
use Prim.Native.String.compare
use Prim.Native.String.{String, compare}
use mathlib.Core.List.{Perm}
use mathlib.Core.List.Perm
use mathlib.Core.Path.{◌≡◌, refl, ap, ◌∙◌}
use mathlib.Core.Bool.{Bool, true, false, ◌&&◌, ◌||◌}
use mathlib.Core.List.{List, [], ◌∷◌}
use mathlib.Core.Logic.{inl, inr}
use code_rag.Common.Tests.{if◌then◌else◌, ltb, ◌==◌, Bool-cases}
use code_rag.Common.Lists.{length, All, All-map}
use native.Mathlib.Omega.{arith}

abbrev is_lt : Ordering → Bool
is_lt o = elim o [ Ordering.lt ↦ true | _ ↦ false ]

abbrev pub str_ltb : String → String → Bool
str_ltb s t = is_lt (compare s t)

-- Every element is related to all that come after it.
abbrev pub Ordered {ℓ κ} : {A : Type ℓ} → (A → A → Type κ) → List A → Type κ
Ordered Q [] = Unit
Ordered Q (x ∷ xs) = All (Q x) xs × Ordered Q xs

module _ {ℓ} {A : Type ℓ} (less : A → A → Bool) where
  unfoldable pub insert_sorted : A → List A → List A
  insert_sorted x [] = x ∷ []
  insert_sorted x (y ∷ ys) =
      let rest = insert_sorted x ys in if less y x then y ∷ rest else x ∷ y ∷ ys

  unfoldable pub sort_by : List A → List A
  sort_by [] = []
  sort_by (x ∷ xs) = insert_sorted x (sort_by xs)

  length-insert_sorted : (x : A) (ys : List A) → length (insert_sorted x ys) ≡ suc (length ys)
  unfolding insert_sorted
  length-insert_sorted x [] = refl
  length-insert_sorted x (y ∷ ys) = ground (arith, length-insert_sorted x ys)

  pub length-sort_by : (xs : List A) → length (sort_by xs) ≡ length xs
  unfolding sort_by
  length-sort_by [] = refl
  length-sort_by (x ∷ xs) = length-insert_sorted x (sort_by xs) ∙ ap suc (length-sort_by xs)

  module _ {κ} (P : A → Type κ) where
    insert_sorted-All : (x : A) (ys : List A) → P x → All P ys → All P (insert_sorted x ys)
    unfolding insert_sorted
    insert_sorted-All x [] p h = (p, tt)
    insert_sorted-All x (y ∷ ys) p h = elim (Bool-cases (less y x)) [
      | inl before ↦ rw before (h.0, insert_sorted-All x ys p h.1)
      | inr after ↦ rw after (p, h)
    ]

    pub sort_by-All : (xs : List A) → All P xs → All P (sort_by xs)
    unfolding sort_by
    sort_by-All [] h = tt
    sort_by-All (x ∷ xs) h = insert_sorted-All x (sort_by xs) h.0 (sort_by-All xs h.1)

  insert_sorted-perm : (x : A) (ys : List A) → Perm (insert_sorted x ys) (x ∷ ys)
  unfolding insert_sorted
  insert_sorted-perm x [] = Perm.rfl
  insert_sorted-perm x (y ∷ ys) = elim (Bool-cases (less y x)) [
    | inl before ↦ rw before (Perm.trans (Perm.cons y (insert_sorted-perm x ys)) (Perm.swap x y ys))
    | inr after ↦ rw after Perm.rfl
  ]

  pub sort_by-perm : (xs : List A) → Perm (sort_by xs) xs
  unfolding sort_by
  sort_by-perm [] = Perm.rfl
  sort_by-perm (x ∷ xs) =
      Perm.trans (insert_sorted-perm x (sort_by xs)) (Perm.cons x (sort_by-perm xs))

  -- A relation that the test decides between any two elements, and that is transitive, orders the sorted list.
  module _ {κ} (Q : A → A → Type κ) (before : (x y : A) → less x y ≡ true → Q x y)
      (after : (x y : A) → less x y ≡ false → Q y x)
      (trans : (x y z : A) → Q x y → Q y z → Q x z) where
    insert_sorted-Ordered : (x : A) (ys : List A) → Ordered Q ys → Ordered Q (insert_sorted x ys)
    unfolding insert_sorted
    insert_sorted-Ordered x [] h = (tt, tt)
    insert_sorted-Ordered x (y ∷ ys) h = elim (Bool-cases (less y x)) [
      | inl is_before ↦
          rw is_before (
            insert_sorted-All (Q y) x ys (before y x is_before) h.0,
            insert_sorted-Ordered x ys h.1,
          )
      | inr is_after ↦
          let near = after y x is_after in
          rw is_after ((near, All-map (Q y) (Q x) (λ z far. trans x y z near far) ys h.0), h)
    ]

    pub sort_by-Ordered : (xs : List A) → Ordered Q (sort_by xs)
    unfolding sort_by
    sort_by-Ordered [] = tt
    sort_by-Ordered (x ∷ xs) = insert_sorted-Ordered x (sort_by xs) (sort_by-Ordered xs)

str_ltb-cons :
    (c d : Char) (s t : String)
    → str_ltb (String.◌∷◌ c s) (String.◌∷◌ d t)
      ≡ (ltb (code c) (code d) || (code c == code d) && str_ltb s t)
str_ltb-cons c d s t = ap is_lt (compare.cons-cons c d s t) ∙ ground arith

pub str_ltb_asym : (s t : String) → str_ltb s t ≡ true → str_ltb t s ≡ false
str_ltb_asym String.[] String.[] h = cc
str_ltb_asym String.[] (String.◌∷◌ d t) h = ap is_lt (compare.cons-nil d t)
str_ltb_asym (String.◌∷◌ c s) String.[] h = absurd (ground (arith, compare.cons-nil c s))
str_ltb_asym (String.◌∷◌ c s) (String.◌∷◌ d t) h =
    ground (arith, str_ltb-cons c d s t, str_ltb-cons d c t s, str_ltb_asym s t)

pub str_ltb_trans :
    (s t u : String) → str_ltb s t ≡ false → str_ltb t u ≡ false → str_ltb s u ≡ false
str_ltb_trans String.[] String.[] u h k = k
str_ltb_trans String.[] (String.◌∷◌ d t) u h k = absurd (ground (arith, compare.nil-cons d t))
str_ltb_trans (String.◌∷◌ c s) t String.[] h k = ap is_lt (compare.cons-nil c s)
str_ltb_trans (String.◌∷◌ c s) String.[] (String.◌∷◌ e u) h k =
    absurd (ground (arith, compare.nil-cons e u))
str_ltb_trans (String.◌∷◌ c s) (String.◌∷◌ d t) (String.◌∷◌ e u) h k =
    ground
      (arith, str_ltb-cons c d s t, str_ltb-cons d e t u, str_ltb-cons c e s u, str_ltb_trans s t u)
