-- ===== src/Privacy/Pseudonymizer.antt =====
-- pseudonymizer.go. A Go map is an association list with the newest entry first, which hides the older
-- ones of its key: as a map, it is what `find` answers for each key. The counter of a
-- kind counts the names of the process, and stays far below 2 ^ 63.
use code_rag.Common.{
  ℕ, zero, suc, ◌+◌, ◌/◌, ◌%◌, Option, none, some, List, [], ◌∷◌, ◌++◌, ltb, length, if◌then◌else◌,
}
use code_rag.Privacy.Bytes.{Bytes, bytes_eq, replace_all}

unfoldable pub find {ℓ} : {A : Type ℓ} → List (Bytes × A) → Bytes → Option A
find [] key = none
find ((k, v) ∷ entries) key = if bytes_eq k key then some v else find entries key

-- counters[kind], which is 0 for a missing key
unfoldable pub counter : List (Bytes × ℕ) → Bytes → ℕ
counter counters kind = elim (find counters kind) [ none ↦ 0 | some n ↦ n ]

pub record Pseudonymizer : Type 0 where
  pub name_to_token : List (Bytes × Bytes)
  pub token_to_name : List (Bytes × Bytes)
  pub counters : List (Bytes × ℕ)

abbrev pub new_pseudonymizer : Pseudonymizer
new_pseudonymizer = record { name_to_token = []; token_to_name = []; counters = [] }

-- the decimal digits; `fuel` bounds how many they are
unfoldable pub decimal_from : ℕ → ℕ → Bytes
decimal_from zero n = []
decimal_from (suc fuel) n =
    let front = decimal_from fuel (n / 10) in
    if ltb n 10 then (48 + n) ∷ [] else front ++ (48 + n % 10) ∷ []

unfoldable pub decimal : ℕ → Bytes
decimal n = decimal_from (suc n) n

-- fmt.Sprintf("%s_%d", kind, n)
unfoldable pub token_of : Bytes → ℕ → Bytes
token_of kind n = kind ++ 95 ∷ decimal n

unfoldable pub pseudonymize : Bytes → Bytes → Pseudonymizer → Bytes × Pseudonymizer
pseudonymize name kind p =
    let n = counter p.counters kind + 1 in
    let token = token_of kind n in
    elim (find p.name_to_token name) [
      | some old ↦ (old, p)
      | none ↦ (
        token,
        record {
          name_to_token = (name, token) ∷ p.name_to_token;
          token_to_name = (token, name) ∷ p.token_to_name;
          counters = (kind, n) ∷ p.counters;
        },
      )
    ]

unfoldable pub resolve : Bytes → Pseudonymizer → Option Bytes
resolve token p = find p.token_to_name token

-- the copy that Snapshot makes; a nil map of it, in Restore, is an empty one
unfoldable pub restore : Option Pseudonymizer → Pseudonymizer → Pseudonymizer
restore none p = p
restore (some snap) p = snap

-- a name goes before the first one that is not longer
unfoldable pub insert_by_length : Bytes → List Bytes → List Bytes
insert_by_length name [] = name ∷ []
insert_by_length name (n ∷ ns) =
    let after = n ∷ insert_by_length name ns in
    if ltb (length name) (length n) then after else name ∷ n ∷ ns

unfoldable pub sort_by_length : List Bytes → List Bytes
sort_by_length [] = []
sort_by_length (n ∷ ns) = insert_by_length n (sort_by_length ns)

unfoldable pub replace_names : Pseudonymizer → List Bytes → Bytes → Bytes
replace_names p [] result = result
replace_names p (name ∷ names) result = elim (find p.name_to_token name) [
  | none ↦ replace_names p names (replace_all result name [])
  | some token ↦ replace_names p names (replace_all result name token)
]

-- PseudonymizeText; `names` are the keys of the map in the order in which this run meets them, which
-- also settles how the sort orders names of one length
unfoldable pub pseudonymize_text : List Bytes → Pseudonymizer → Bytes → Bytes
pseudonymize_text names p text = replace_names p (sort_by_length names) text
