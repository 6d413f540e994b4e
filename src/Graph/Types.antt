-- ===== src/Graph/Types.antt =====
-- The data of MemoryGraphRepository (internal/graph/memory.go). A Go map is a list with one entry for
-- each key; property values are Go's `any`. New identifiers and the time are arguments, and locks
-- are left out: every operation holds the lock from its start to its end.
use code_rag.Common.{
  ℤ, ◌≡◌, ℕ, ◌+◌, ◌%◌, ◌^◌, String, Bool, true, false, Option, none, some, List, [], ◌∷◌, ◌||◌,
  ◌&&◌, ◌==◌, leb, codes, str_eq, length, if◌then◌else◌,
}

-- Go's `any`, as the code uses it: nil, texts, flags, float64 numbers, maps from texts, type assertions
-- to these, and reflect.DeepEqual.
pub record Values : Type 1 where
  pub Value : Type 0
  pub null : Value
  pub text : String → Value
  pub truth : Bool → Value
  pub number : ℤ → Value
  pub object : List (String × Value) → Value
  pub as_text : Value → Option String
  pub as_truth : Value → Option Bool
  pub as_number : Value → Option ℤ
  pub as_object : Value → Option (List (String × Value))
  pub deep_equal : Value → Value → Bool

-- An assertion to the type that a value has gives the value, and texts are equal when they are the same.
pub record ValueLaws (V : Values) : Type 0 where
  pub as_text-text : (s : String) → V.as_text (V.text s) ≡ some s
  pub as_truth-truth : (b : Bool) → V.as_truth (V.truth b) ≡ some b
  pub as_number-number : (x : ℤ) → V.as_number (V.number x) ≡ some x
  pub as_object-object : (o : List (String × V.Value)) → V.as_object (V.object o) ≡ some o
  pub as_text-null : V.as_text V.null ≡ none
  pub deep_equal-text : (s t : String) → V.deep_equal (V.text s) (V.text t) ≡ str_eq s t

pub data Outcome {ℓ} (A : Type ℓ) : Type ℓ where
  done : A → Outcome A
  invalid_kind panics : Outcome A

abbrev between : ℕ → ℕ → ℕ → Bool
between lo c hi = leb lo c && leb c hi

abbrev is_letter : ℕ → Bool
is_letter c = between 65 c 90 || between 97 c 122

all_word : List ℕ → Bool
all_word [] = true
all_word (c ∷ cs) = (is_letter c || between 48 c 57 || c == 95) && all_word cs

-- kindPattern, ^[A-Za-z][A-Za-z0-9_]*$
unfoldable pub validate_kind : String → Bool
unfolding all_word
validate_kind kind = elim (codes kind) [ [] ↦ false | c ∷ cs ↦ is_letter c && all_word cs ]

module _ (V : Values) where
  open V use {Value, null, deep_equal}

  abbrev pub Properties : Type 0
  Properties = List (String × Value)

  pub record Node : Type 0 where
    pub id : String
    pub kind : String
    pub properties : Properties

  pub record Edge : Type 0 where
    pub id : String
    pub kind : String
    pub from_id : String
    pub to_id : String
    pub properties : Properties

  pub record MemoryGraph : Type 0 where
    pub nodes : List Node
    pub edges : List Edge
    pub generation : ℕ

  unfoldable pub find_property : Properties → String → Option Value
  find_property [] key = none
  find_property ((k, v) ∷ props) key = if str_eq k key then some v else find_property props key

  -- props[key], nil where the key is missing
  unfoldable pub property : Properties → String → Value
  property props key = elim (find_property props key) [ none ↦ null | some v ↦ v ]

  -- props[key] = v
  unfoldable pub set_property : String → Value → Properties → Properties
  set_property key v [] = (key, v) ∷ []
  set_property key v ((k, u) ∷ props) =
      if str_eq k key then (k, v) ∷ props else (k, u) ∷ set_property key v props

  unfoldable pub put_properties : Properties → Properties → Properties
  put_properties [] props = props
  put_properties ((k, v) ∷ new) props = put_properties new (set_property k v props)

  -- the entry that a missing key gets
  unfoldable pub set_default : String → Value → Properties → Properties
  set_default key v props = elim (find_property props key) [
    | none ↦ set_property key v props
    | some u ↦ props
  ]

  -- reflect.DeepEqual(node.Properties[k], v) for every filter
  unfoldable pub matches : Properties → Properties → Bool
  matches [] props = true
  matches ((k, v) ∷ filters) props = deep_equal (property props k) v && matches filters props

  unfoldable pub covers : Properties → Properties → Bool
  covers [] props = true
  covers ((k, v) ∷ entries) props = elim (find_property props k) [
    | none ↦ false
    | some u ↦ deep_equal v u && covers entries props
  ]

  -- reflect.DeepEqual of the map of an edge, which is not nil, and a map that may be
  unfoldable pub same_properties : Properties → Option Properties → Bool
  same_properties props none = false
  same_properties props (some given) = length props == length given && covers props given

  -- r.generation++
  unfoldable pub next_generation : ℕ → ℕ
  next_generation n = (n + 1) % 2 ^ 64
