-- ===== src/Ctxstore/Records.antt =====
-- The records of developer context and how a digest packs them (internal/ctxstore/digest.go and
-- store.go). A length of a text is that of its UTF-8 bytes.
use Prim.Native.Char.{code}
use Prim.Native.String.{◌++◌ as str_append}
use code_rag.Common.{
  ℕ, suc, zero, ◌+◌, ◌/◌, ℤ, pos, ltb_ℤ, ltb, String, Bool, not, List, [], ◌∷◌, ◌||◌, str_eq,
  is_space, if◌then◌else◌,
}

pub record Record : Type 0 where
  pub id : String
  pub kind : String
  pub title : String
  pub body : String
  pub source : String
  pub pinned : Bool
  pub created_at : String
  pub score : ℤ

unfoldable pub utf8_width : ℕ → ℕ
utf8_width c = if ltb c 128 then 1 else if ltb c 2048 then 2 else if ltb c 65536 then 3 else 4

-- len(s)
unfoldable pub byte_length : String → ℕ
byte_length String.[] = 0
byte_length (String.◌∷◌ c s) = utf8_width (code c) + byte_length s

unfoldable pub estimate_tokens : String → ℕ
estimate_tokens s = (byte_length s + 3) / 4

unfoldable pub add_field : String → List String → List String
add_field w ws = if str_eq w "" then ws else w ∷ ws

-- strings.Fields: the field that the text starts with, which may be empty, and those after it
unfoldable pub split_spaces : String → String × List String
split_spaces String.[] = ("", [])
split_spaces (String.◌∷◌ c s) =
    let (w, ws) = split_spaces s in
    if is_space (code c) then ("", add_field w ws) else (String.◌∷◌ c w, ws)

unfoldable pub join_spaces : List String → String
join_spaces [] = ""
join_spaces (w ∷ ws) = elim ws [ [] ↦ w | _ ∷ _ ↦ str_append w (str_append " " (join_spaces ws)) ]

unfoldable pub rune_count : String → ℕ
rune_count String.[] = 0
rune_count (String.◌∷◌ c s) = suc (rune_count s)

unfoldable pub take_runes : ℕ → String → String
take_runes zero s = ""
take_runes (suc n) String.[] = ""
take_runes (suc n) (String.◌∷◌ c s) = String.◌∷◌ c (take_runes n s)

unfoldable pub short_body : String → String
short_body text =
    let (w, ws) = split_spaces text in
    let body = join_spaces (add_field w ws) in
    if ltb 200 (rune_count body) then str_append (take_runes 200 body) "..." else body

unfoldable pub record_line : Record → String
record_line r =
    let body = short_body r.body in
    let line = str_append "- [" (str_append r.kind (str_append "] " r.title)) in
    let tail = if str_eq body "" then "" else str_append ": " body in
    str_append (str_append line tail) "\n"

-- used+c <= budget, for a budget that may be negative
abbrev pub fits : ℤ → ℕ → Bool
fits budget n = not (ltb_ℤ budget (pos n))

-- the loop of pack, from line i on, with the estimate and the text so far
unfoldable pub pack_lines : ℤ → ℕ → ℕ → String → List String → String × List ℕ
pack_lines budget i used text [] = (text, [])
pack_lines budget i used text (l ∷ lines) =
    let c = estimate_tokens l in
    let (kept, included) = pack_lines budget (suc i) (used + c) (str_append text l) lines in
    let skipped = pack_lines budget (suc i) used text lines in
    if fits budget (used + c) then (kept, i ∷ included) else skipped

unfoldable pub pack : String → ℤ → List String → String × List ℕ
pack header budget lines =
    let (text, included) = pack_lines budget 0 (estimate_tokens header) header lines in
    elim included [ [] ↦ ("", []) | i ∷ rest ↦ (text, i ∷ rest) ]

-- the lines of the records that a test picks
unfoldable pub group : (Record → Bool) → List Record → List String
group pred [] = []
group pred (r ∷ recs) = let rest = group pred recs in if pred r then record_line r ∷ rest else rest

abbrev pub is_rule : Record → Bool
is_rule r = str_eq r.kind "decision" || str_eq r.kind "convention"

-- the preferences, for the keys in order
unfoldable pub preference_lines : List (String × String) → List String
preference_lines [] = []
preference_lines ((k, v) ∷ profile) =
    str_append "- preference " (str_append k (str_append ": " (str_append v "\n")))
    ∷ preference_lines profile
