-- ===== src/Graph/Any.antt =====
-- A concrete `any`: nil, texts, flags, numbers, and maps of these.
use code_rag.Common.{
  ℤ, pos_part, neg_part, String, Bool, true, false, none, some, List, [], ◌∷◌, ◌≡◌, refl, ◌==◌,
  ◌&&◌, not, str_eq,
}
use code_rag.Graph.Types.{Values, ValueLaws}

mutual
  pub data Any : Type 0 where
    nil : Any
    str : String → Any
    flag : Bool → Any
    num : ℤ → Any
    map_of : Fields → Any

  pub data Fields : Type 0 where
    no_fields : Fields
    field : String → Any → Fields → Fields

abbrev fields_of : List (String × Any) → Fields
fields_of [] = no_fields
fields_of ((k, v) ∷ o) = field k v (fields_of o)

abbrev entries_of : Fields → List (String × Any)
entries_of no_fields = []
entries_of (field k v o) = (k, v) ∷ entries_of o

entries_of-fields_of : (o : List (String × Any)) → entries_of (fields_of o) ≡ o
entries_of-fields_of [] = refl
entries_of-fields_of ((k, v) ∷ o) = λ i. (k, v) ∷ entries_of-fields_of o i

abbrev if_same : Bool → Bool → Bool
if_same true b = b
if_same false b = not b

-- Maps with their keys in one order.
unfoldable mutual
  pub same_any : Any → Any → Bool
  same_any nil nil = true
  same_any (str s) (str t) = str_eq s t
  same_any (flag a) (flag b) = if_same a b
  same_any (num x) (num y) = pos_part x == pos_part y && neg_part x == neg_part y
  same_any (map_of o) (map_of p) = same_fields o p
  same_any _ _ = false

  same_fields : Fields → Fields → Bool
  same_fields no_fields no_fields = true
  same_fields (field k v o) (field l u p) = str_eq k l && same_any v u && same_fields o p
  same_fields _ _ = false

abbrev pub texts : Values
texts = record {
  Value = Any;
  null = nil;
  text = str;
  truth = flag;
  number = num;
  object = λ o. map_of (fields_of o);
  as_text = λ v. elim v [ str s ↦ some s | _ ↦ none ];
  as_truth = λ v. elim v [ flag b ↦ some b | _ ↦ none ];
  as_number = λ v. elim v [ num x ↦ some x | _ ↦ none ];
  as_object = λ v. elim v [ map_of o ↦ some (entries_of o) | _ ↦ none ];
  deep_equal = same_any;
}

pub texts-ValueLaws : ValueLaws texts
unfolding same_any
texts-ValueLaws = record {
  as_text-text = λ s. refl;
  as_truth-truth = λ b. refl;
  as_number-number = λ x. refl;
  as_object-object = λ o. λ i. some (entries_of-fields_of o i);
  as_text-null = refl;
  deep_equal-text = λ s t. refl;
}
