-- ===== src/Ids.antt =====
-- Stable identifiers (internal/ids/ids.go): the kind prefix before the first colon.
pub mod RoundTrip
pub mod Build
mod Tests
use Prim.Native.Char.{code}
use code_rag.Common.{
  String, Bool, true, false, Option, none, some, List, [], ◌∷◌, ◌==◌, str_eq, str_mem,
  if◌then◌else◌,
}

abbrev pub known : List String
known =
    "func" ∷ "class" ∷ "struct" ∷ "file" ∷ "binfunc" ∷ "binary" ∷ "bb" ∷ "insn" ∷ "var" ∷ "slice"
    ∷ "span" ∷ "binspan" ∷ "task" ∷ "obs" ∷ "binmodule" ∷ "binsection" ∷ "binglobal" ∷ "binimport"
    ∷ "binexport" ∷ "binsymbol" ∷ "bintype" ∷ "binregister" ∷ "binmemloc" ∷ "binconst"
    ∷ "bincallsite" ∷ "binjump" ∷ "bindataflow" ∷ "bincontrolflow" ∷ "binextapi" ∷ "binartifact"
    ∷ "binhypothesis" ∷ "binportmap" ∷ "binverify" ∷ "binctxpkg" ∷ []

-- strings.IndexByte(id, ':') with the two slices around the colon
unfoldable pub cut_colon : String → Option (String × String)
cut_colon String.[] = none
cut_colon (String.◌∷◌ c s) =
    if code c == b':'
    then some ("", s)
    else elim (cut_colon s) [ none ↦ none | some (kind, rest) ↦ some (String.◌∷◌ c kind, rest) ]

-- `known[kind]`
unfoldable pub is_known : String → Bool
unfolding str_mem
is_known kind = str_mem kind known

-- The kind, the rest and `ok`; an index of 0 or below is refused.
unfoldable pub parse : String → String × String × Bool
parse id = elim (cut_colon id) [
  | none ↦ ("", id, false)
  | some (kind, rest) ↦
      if str_eq kind ""
      then ("", id, false)
      else if is_known kind
      then (kind, rest, true)
      else ("", id, false)
]

unfoldable pub looks : String → Bool
looks s = (parse s).2
