-- ===== src/Privacy/Bytes.antt =====
-- Go strings as the byte lists that they are, and the functions of the package strings that the
-- privacy code calls on contents: lengths and cuts are in bytes there.
use code_rag.Common.{
  ℕ, zero, suc, ◌-◌, String, Bool, true, false, List, [], ◌∷◌, ◌++◌, ◌||◌, ◌&&◌, ◌≡◌, ◌↔◌, refl,
  arith, ◌==◌, leb, codes, length, drop, if◌then◌else◌,
}

abbrev pub Bytes : Type 0
Bytes = List ℕ

-- an ASCII literal
abbrev pub ascii : String → Bytes
ascii s = codes s

unfoldable pub bytes_eq : Bytes → Bytes → Bool
bytes_eq [] [] = true
bytes_eq [] (c ∷ cs) = false
bytes_eq (b ∷ bs) [] = false
bytes_eq (b ∷ bs) (c ∷ cs) = (b == c) && bytes_eq bs cs

pub bytes_eq_iff : (s t : Bytes) → (bytes_eq s t ≡ true) ↔ (s ≡ t)
unfolding bytes_eq
bytes_eq_iff [] [] = (λ e. refl, λ e. refl)
bytes_eq_iff [] (c ∷ cs) = (λ e. cc, λ e. cc)
bytes_eq_iff (b ∷ bs) [] = (λ e. cc, λ e. cc)
bytes_eq_iff (b ∷ bs) (c ∷ cs) = ground (arith, bytes_eq_iff bs cs)

-- strings.HasPrefix(s, p)
unfoldable pub has_prefix : Bytes → Bytes → Bool
has_prefix s [] = true
has_prefix [] (c ∷ cs) = false
has_prefix (b ∷ bs) (c ∷ cs) = (b == c) && has_prefix bs cs

unfoldable pub has_suffix : Bytes → Bytes → Bool
has_suffix s p = leb (length p) (length s) && bytes_eq (drop (length s - length p) s) p

-- strings.Contains(s, p)
unfoldable pub contains : Bytes → Bytes → Bool
contains [] p = has_prefix [] p
contains (b ∷ bs) p = has_prefix (b ∷ bs) p || contains bs p

abbrev pub between : ℕ → ℕ → ℕ → Bool
between lo b hi = leb lo b && leb b hi

abbrev all_continue : ℕ → Bytes → Bool
all_continue zero s = true
all_continue (suc k) [] = false
all_continue (suc k) (b ∷ bs) = between 128 b 191 && all_continue k bs

-- the second byte after a first byte, and how many bytes follow that one
abbrev second_byte : ℕ → ℕ → ℕ → ℕ → Bytes → ℕ
second_byte lo hi more width [] = 1
second_byte lo hi more width (b ∷ bs) = if between lo b hi && all_continue more bs then width else 1

-- utf8.DecodeRune: how many bytes the first rune takes; an invalid byte is a rune of its own
unfoldable pub rune_width : ℕ → Bytes → ℕ
rune_width b bs =
    if between 194 b 223
    then second_byte 128 191 0 2 bs
    else if b == 224
    then second_byte 160 191 1 3 bs
    else if b == 237
    then second_byte 128 159 1 3 bs
    else if between 225 b 239
    then second_byte 128 191 1 3 bs
    else if b == 240
    then second_byte 144 191 2 4 bs
    else if between 241 b 243
    then second_byte 128 191 2 4 bs
    else if b == 244
    then second_byte 128 143 2 4 bs
    else 1

-- `skip` bytes of an occurrence of `old` are left to pass over
unfoldable pub replace_from : Bytes → Bytes → ℕ → Bytes → Bytes
replace_from old new skip [] = []
replace_from old new (suc skip) (b ∷ bs) = replace_from old new skip bs
replace_from old new zero (b ∷ bs) =
    let replaced = new ++ replace_from old new (length old - 1) bs in
    let kept = b ∷ replace_from old new zero bs in
    if has_prefix (b ∷ bs) old then replaced else kept

-- `new` before each rune and at the end; `rest` bytes of the rune are left
unfoldable pub interleave : Bytes → ℕ → Bytes → Bytes
interleave new rest [] = new
interleave new (suc rest) (b ∷ bs) = b ∷ interleave new rest bs
interleave new zero (b ∷ bs) = new ++ b ∷ interleave new (rune_width b bs - 1) bs

-- strings.ReplaceAll(s, old, new)
unfoldable pub replace_all : Bytes → Bytes → Bytes → Bytes
replace_all s old new =
    if length old == 0 then interleave new zero s else replace_from old new zero s

-- the white space of Unicode in UTF-8
abbrev pub spaces : List Bytes
spaces =
    (9 ∷ [])
    ∷ (10 ∷ [])
    ∷ (11 ∷ [])
    ∷ (12 ∷ [])
    ∷ (13 ∷ [])
    ∷ (32 ∷ [])
    ∷ (194 ∷ 133 ∷ [])
    ∷ (194 ∷ 160 ∷ [])
    ∷ (225 ∷ 154 ∷ 128 ∷ [])
    ∷ (226 ∷ 128 ∷ 128 ∷ [])
    ∷ (226 ∷ 128 ∷ 129 ∷ [])
    ∷ (226 ∷ 128 ∷ 130 ∷ [])
    ∷ (226 ∷ 128 ∷ 131 ∷ [])
    ∷ (226 ∷ 128 ∷ 132 ∷ [])
    ∷ (226 ∷ 128 ∷ 133 ∷ [])
    ∷ (226 ∷ 128 ∷ 134 ∷ [])
    ∷ (226 ∷ 128 ∷ 135 ∷ [])
    ∷ (226 ∷ 128 ∷ 136 ∷ [])
    ∷ (226 ∷ 128 ∷ 137 ∷ [])
    ∷ (226 ∷ 128 ∷ 138 ∷ [])
    ∷ (226 ∷ 128 ∷ 168 ∷ [])
    ∷ (226 ∷ 128 ∷ 169 ∷ [])
    ∷ (226 ∷ 128 ∷ 175 ∷ [])
    ∷ (226 ∷ 129 ∷ 159 ∷ [])
    ∷ (227 ∷ 128 ∷ 128 ∷ [])
    ∷ []

-- how many bytes of white space stand first; 0 for none
unfoldable pub space_width : List Bytes → Bytes → ℕ
space_width [] s = 0
space_width (sp ∷ sps) s = if has_prefix s sp then length sp else space_width sps s

-- a word, unless it is empty
unfoldable pub add_word : Bytes → List Bytes → List Bytes
add_word word words = if length word == 0 then words else word ∷ words

unfoldable pub fields_from : Bytes → ℕ → Bytes → List Bytes
fields_from word skip [] = add_word word []
fields_from word (suc skip) (b ∷ bs) = fields_from word skip bs
fields_from word zero (b ∷ bs) =
    let width = space_width spaces (b ∷ bs) in
    let more = fields_from (word ++ b ∷ []) zero bs in
    let next = fields_from [] (width - 1) bs in if width == 0 then more else add_word word next

-- strings.Fields
unfoldable pub fields : Bytes → List Bytes
fields s = fields_from [] zero s

-- strings.Join(words, " ")
unfoldable pub join_spaces : List Bytes → Bytes
join_spaces [] = []
join_spaces (w ∷ []) = w
join_spaces (w ∷ v ∷ ws) = w ++ 32 ∷ join_spaces (v ∷ ws)

-- strings.TrimSpace
unfoldable pub trim_left_from : ℕ → Bytes → Bytes
trim_left_from skip [] = []
trim_left_from (suc skip) (b ∷ bs) = trim_left_from skip bs
trim_left_from zero (b ∷ bs) =
    let width = space_width spaces (b ∷ bs) in
    let rest = trim_left_from (width - 1) bs in if width == 0 then b ∷ bs else rest

unfoldable pub trim_right : Bytes → Bytes
trim_right [] = []
trim_right (b ∷ bs) =
    let rest = trim_right bs in if length (trim_left_from zero (b ∷ bs)) == 0 then [] else b ∷ rest

unfoldable pub trim_space : Bytes → Bytes
trim_space s = trim_right (trim_left_from zero s)
