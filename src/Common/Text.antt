-- ===== src/Common/Text.antt =====
-- Go strings. Keys, tags and names are native texts, compared whole; a text that the program
-- walks is the list of its code points (its bytes, where it is ASCII).
use Prim.Native.Nat.{ℕ, zero, suc, ◌/◌, ◌%◌}
use Prim.Native.Char.{Char, code}
use Prim.Native.String.{String}
use mathlib.Core.Bool.{Bool, true, false, ◌&&◌, ◌||◌}
use mathlib.Core.List.{List, [], ◌∷◌}
use mathlib.Core.Logic.{◌↔◌}
use mathlib.Core.Path.{◌≡◌, refl}
use text.Mathlib.Text.{◌==◌ as str_eq_lib}
use text.Mathlib.TextEquality.{eq_iff}
use code_rag.Common.Tests.{leb, ◌==◌, if◌then◌else◌}

abbrev pub str_eq : String → String → Bool
str_eq s t = str_eq_lib s t

pub str_eq_iff : (s t : String) → (str_eq s t ≡ true) ↔ (s ≡ t)
str_eq_iff s t = eq_iff s t

abbrev pub codes : String → List ℕ
codes String.[] = []
codes (String.◌∷◌ c s) = code c ∷ codes s

-- unicode.IsSpace
unfoldable pub is_space : ℕ → Bool
is_space c =
    (leb 9 c && leb c 13)
    || c == 32
    || c == 0x85
    || c == 0xa0
    || c == 0x1680
    || (leb 0x2000 c && leb c 0x200a)
    || c == 0x2028
    || c == 0x2029
    || c == 0x202f
    || c == 0x205f
    || c == 0x3000

-- strings.TrimLeftFunc and TrimRightFunc with unicode.IsSpace
unfoldable pub trim_left : String → String
unfolding is_space
trim_left String.[] = String.[]
trim_left (String.◌∷◌ c s) = if is_space (code c) then trim_left s else String.◌∷◌ c s

unfoldable pub trim_right : String → String
unfolding is_space
trim_right String.[] = String.[]
trim_right (String.◌∷◌ c s) =
    let r = trim_right s in if str_eq r "" && is_space (code c) then String.[] else String.◌∷◌ c r

-- strings.TrimSpace
unfoldable pub trim_space : String → String
unfolding trim_left trim_right
trim_space s = trim_right (trim_left s)

-- strings.TrimSpace(s) == ""
unfoldable pub is_blank : String → Bool
unfolding trim_space
is_blank s = str_eq (trim_space s) ""

unfoldable pub str_mem : String → List String → Bool
str_mem s [] = false
str_mem s (x ∷ xs) = str_eq x s || str_mem s xs

abbrev digit_char : ℕ → Char
digit_char d =
    if d == 0
    then "0"
    else if d == 1
    then "1"
    else if d == 2
    then "2"
    else if d == 3
    then "3"
    else if d == 4
    then "4"
    else if d == 5
    then "5"
    else if d == 6
    then "6"
    else if d == 7
    then "7"
    else if d == 8
    then "8"
    else "9"

itoa_from : ℕ → ℕ → String → String
itoa_from zero n acc = acc
itoa_from (suc fuel) n acc =
    let acc' = String.◌∷◌ (digit_char (n % 10)) acc in
    let rest = itoa_from fuel (n / 10) acc' in if n / 10 == 0 then acc' else rest

-- strconv.Itoa; a number has at most as many digits as its successor
unfoldable pub itoa : ℕ → String
unfolding itoa_from
itoa n = itoa_from (suc n) n ""

itoa_runs : itoa 1075 ≡ "1075"
unfolding itoa
itoa_runs = refl

trim_space_runs : trim_space "  a b\n" ≡ "a b"
unfolding trim_space
trim_space_runs = refl

is_blank_runs : is_blank " \t\n" ≡ true
unfolding is_blank
is_blank_runs = refl
