-- ===== src/Slice.antt =====
-- ComputeSlice of internal/services/slice.go. An int is the 64-bit integer of the platform, and every
-- sum and product wraps around.
pub mod Window
pub mod Tests
use code_rag.Common.{
  ℕ, suc, ◌+◌, ◌-◌, ◌%◌, ◌^◌, String, Bool, true, false, Option, none, some, List, [], ◌∷◌, ◌++◌,
  ◌==◌, ltb, ◌&&◌, ℤ, pos, negsuc, pos_part, neg_part, ◌+ℤ◌, ◌-ℤ◌, ◌*ℤ◌, ltb_ℤ, length,
  if◌then◌else◌,
}

-- the signed value of the low 64 bits
unfoldable pub to_int64 : ℤ → ℤ
to_int64 z =
    let bits = (pos_part z + (2 ^ 64 - neg_part z % 2 ^ 64)) % 2 ^ 64 in
    if ltb bits (2 ^ 63) then pos bits else negsuc (2 ^ 64 - 1 - bits)

unfoldable pub add : ℤ → ℤ → ℤ
add a b = to_int64 (a +ℤ b)

unfoldable pub sub : ℤ → ℤ → ℤ
sub a b = to_int64 (a -ℤ b)

unfoldable pub mul : ℤ → ℤ → ℤ
mul a b = to_int64 (a *ℤ b)

abbrev pub eq_ℤ : ℤ → ℤ → Bool
eq_ℤ a b = pos_part a == pos_part b && neg_part a == neg_part b

pub record SliceRequest : Type 0 where
  pub base : String
  pub base_length : Option ℤ
  pub offset : ℤ
  pub length : Option ℤ
  pub end : Option ℤ
  pub element_size : ℤ
  pub element_type : String
  pub source_reference : String
  pub expression : String

-- one constructor for each message, with the numbers that it prints
pub data Problem : Type 0 where
  disagree : ℤ → ℤ → ℤ → ℤ → Problem
  no_window : Problem
  negative_offset : ℤ → Problem
  negative_length : ℤ → ℤ → ℤ → Problem
  past_the_end : ℤ → ℤ → ℤ → Problem
  off_by_one : ℤ → ℤ → ℤ → Problem
  offset_past_the_end : ℤ → ℤ → Problem

pub record SliceResult : Type 0 where
  pub base : String
  pub offset : ℤ
  pub length : ℤ
  pub end : ℤ
  pub last_index : ℤ
  pub element_size : ℤ
  pub byte_offset : ℤ
  pub byte_length : ℤ
  pub byte_end : ℤ
  pub valid : Bool
  pub problems : List Problem
  pub element_type : String
  pub source_ref : String
  pub source_expr : String

-- the switch: length, end and what is wrong with them
unfoldable pub resolve_window : SliceRequest → ℤ × ℤ × List Problem
resolve_window req = elim req.length [
  | some l ↦ elim req.end [
    | some e ↦
        let sum = add req.offset l in
        (l, e, if eq_ℤ sum e then [] else disagree l e req.offset sum ∷ [])
    | none ↦ (l, add req.offset l, [])
  ]
  | none ↦ elim req.end [
    | some e ↦ (sub e req.offset, e, [])
    | none ↦ (pos 0, pos 0, no_window ∷ [])
  ]
]

abbrev pub report : Bool → Problem → List Problem
report true p = p ∷ []
report false p = []

-- the checks against a known base length
unfoldable pub base_problems : ℤ → ℤ → ℤ → Option ℤ → List Problem
base_problems offset len end none = []
base_problems offset len end (some b) =
    let past = ltb_ℤ b end in
    report past (past_the_end end b (sub end b))
    ++ report (past && eq_ℤ (sub end (pos 1)) b) (off_by_one (sub end (pos 1)) end len)
    ++ report (ltb_ℤ b offset) (offset_past_the_end offset b)

-- the problems in the order in which they are appended
unfoldable pub all_problems : SliceRequest → List Problem
all_problems req =
    let (len, end, window) = resolve_window req in
    window
    ++ report (ltb_ℤ req.offset (pos 0)) (negative_offset req.offset)
    ++ report (ltb_ℤ len (pos 0)) (negative_length len end req.offset)
    ++ base_problems req.offset len end req.base_length

-- Notation, a text for people, is left out
unfoldable pub compute_slice : SliceRequest → SliceResult
compute_slice req =
    let (len, end, _) = resolve_window req in
    let size = if ltb_ℤ (pos 0) req.element_size then req.element_size else pos 1 in
    let problems = all_problems req in
    record {
      base = req.base;
      offset = req.offset;
      length = len;
      end = end;
      last_index = sub end (pos 1);
      element_size = size;
      byte_offset = mul req.offset size;
      byte_length = mul len size;
      byte_end = mul end size;
      valid = length problems == 0;
      problems = problems;
      element_type = req.element_type;
      source_ref = req.source_reference;
      source_expr = req.expression;
    }
