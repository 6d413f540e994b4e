-- ===== src/Slice/Window.antt =====
-- What a valid window is.
use code_rag.Common.{
  ◌^◌, ◌<◌, Bool, true, false, Option, none, some, List, ◌++◌, ◌≡◌, ◌≢◌, ◌↔◌, refl, inl, inr, arith,
  ==_iff, ℤ, pos, negsuc, pos_part, neg_part, ◌+ℤ◌, ◌-ℤ◌, ◌≤ℤ◌, ltb_ℤ, eq_of_parts, +ℤ_parts,
  -ℤ_parts, length, length-append, Option-cases,
}
use code_rag.Slice.{
  SliceRequest, Problem, negative_offset, negative_length, to_int64, add, sub, eq_ℤ, resolve_window,
  report, base_problems, all_problems, compute_slice,
}

-- Far enough from the ends of the 64-bit integers that one sum does not wrap around.
abbrev pub IsSmall : ℤ → Type 0
IsSmall z = (pos_part z < 2 ^ 62) × (neg_part z < 2 ^ 62)

to_int64_id : (z : ℤ) → pos_part z < 2 ^ 63 → neg_part z < 2 ^ 63 → to_int64 z ≡ z
unfolding to_int64
to_int64_id (pos n) p q = ground arith
to_int64_id (negsuc n) p q = ground arith

add_eq : (a b : ℤ) → IsSmall a → IsSmall b → add a b ≡ a +ℤ b
unfolding add ◌+ℤ◌
add_eq a b p q = to_int64_id (a +ℤ b) (ground arith) (ground arith)

sub_eq : (a b : ℤ) → IsSmall a → IsSmall b → sub a b ≡ a -ℤ b
unfolding sub ◌-ℤ◌
sub_eq a b p q = to_int64_id (a -ℤ b) (ground arith) (ground arith)

abbrev pub IsSmallOption : Option ℤ → Type 0
IsSmallOption none = Unit {0}
IsSmallOption (some z) = IsSmall z

-- The numbers of a request are small.
pub record IsSmallRequest (req : SliceRequest) : Type 0 where
  pub offset : IsSmall req.offset
  pub length : (l : ℤ) → req.length ≡ some l → IsSmall l
  pub end : (e : ℤ) → req.end ≡ some e → IsSmall e

-- The half-open window from `offset` to `end`, `length` elements long, as it was asked for and inside
-- the base.
pub record IsWindow (req : SliceRequest) (len end : ℤ) : Type 0 where
  pub given : req.length ≡ none → req.end ≢ none
  pub given_length : (l : ℤ) → req.length ≡ some l → len ≡ l
  pub given_end : (e : ℤ) → req.end ≡ some e → end ≡ e
  pub start : pos 0 ≤ℤ req.offset
  pub counts : pos 0 ≤ℤ len
  pub ends : end ≡ req.offset +ℤ len
  pub inside : (b : ℤ) → req.base_length ≡ some b → end ≤ℤ b

-- What the switch settles, and when it reports nothing.
abbrev Settled : SliceRequest → ℤ → ℤ → Type 0
Settled req len end =
    (req.length ≡ none → req.end ≢ none)
    × ((l : ℤ) → req.length ≡ some l → len ≡ l)
    × ((e : ℤ) → req.end ≡ some e → end ≡ e)
    × (end ≡ req.offset +ℤ len)

eq_ℤ_iff : (a b : ℤ) → (eq_ℤ a b ≡ true) ↔ (a ≡ b)
eq_ℤ_iff (pos a) (pos b) = ground arith
eq_ℤ_iff (pos a) (negsuc b) = ground arith
eq_ℤ_iff (negsuc a) (pos b) = ground arith
eq_ℤ_iff (negsuc a) (negsuc b) = ground arith

+ℤ--ℤ : (a b : ℤ) → b ≡ a +ℤ (b -ℤ a)
+ℤ--ℤ a b = eq_of_parts b (a +ℤ (b -ℤ a)) (ground (arith, +ℤ_parts a (b -ℤ a), -ℤ_parts b a))

resolve_window-Settled :
    (req : SliceRequest)
    → IsSmallRequest req
    → (length (resolve_window req).2 ≡ 0)
      ↔ Settled req (resolve_window req).0 (resolve_window req).1
unfolding resolve_window
resolve_window-Settled req s = elim (Option-cases req.length) [
  | inl no_length ↦ elim (Option-cases req.end) [
    | inl no_end ↦ ground arith
    | inr (e, given) ↦
        ground (arith, sub_eq e req.offset (s.end e given) s.offset, +ℤ--ℤ req.offset e)
  ]
  | inr (l, given) ↦ elim (Option-cases req.end) [
    | inl no_end ↦ ground (arith, add_eq req.offset l s.offset (s.length l given))
    | inr (e, given') ↦
        ground
          (arith, add_eq req.offset l s.offset (s.length l given), eq_ℤ_iff (add req.offset l) e)
  ]
]

length-report : (b : Bool) (p : Problem) → (length (report b p) ≡ 0) ↔ (b ≡ false)
unfolding report
length-report true p = (λ e. absurd (omega (arith, e)), λ e. cc)
length-report false p = (λ e. refl, λ e. refl)

offset_le : (offset len end : ℤ) → pos 0 ≤ℤ len → end ≡ offset +ℤ len → offset ≤ℤ end
offset_le offset len end counts ends = rw ends (ground (arith, +ℤ_parts offset len))

-- Nothing is reported against the base when the window ends inside it and starts before its end.
base_problems_none :
    (offset len end : ℤ) (base : Option ℤ)
    → pos 0 ≤ℤ len
    → end ≡ offset +ℤ len
    → (length (base_problems offset len end base) ≡ 0) ↔ ((b : ℤ) → base ≡ some b → end ≤ℤ b)
unfolding base_problems
base_problems_none offset len end none counts ends = (λ h b e. cc, λ h. refl)
base_problems_none offset len end (some b) counts ends =
    (λ h b' e. ground arith, λ h. ground (arith, h b, offset_le offset len end counts ends))

four_parts :
    (xs ys zs ws : List Problem)
    → (length (xs ++ ys ++ zs ++ ws) ≡ 0)
      ↔ ((length xs ≡ 0) × (length ys ≡ 0) × (length zs ≡ 0) × (length ws ≡ 0))
four_parts xs ys zs ws =
    ground
      (arith, length-append (xs ++ ys ++ zs) ws, length-append (xs ++ ys) zs, length-append xs ys)

-- ComputeSlice accepts a request of small numbers exactly when it describes a window: a length or an
-- end is given, the window has what is given, starts and counts from zero on, its end is its start
-- plus its length, and it ends inside a base of known length.
pub compute_slice-valid_iff :
    (req : SliceRequest)
    → IsSmallRequest req
    → ((compute_slice req).valid ≡ true)
      ↔ IsWindow req (compute_slice req).length (compute_slice req).end
unfolding compute_slice all_problems
compute_slice-valid_iff req s =
    let len : ℤ = (resolve_window req).0 in
    let end : ℤ = (resolve_window req).1 in
    let settled = resolve_window-Settled req s in
    let parts =
      four_parts (resolve_window req).2
        (report (ltb_ℤ req.offset (pos 0)) (negative_offset req.offset))
        (report (ltb_ℤ len (pos 0)) (negative_length len end req.offset))
        (base_problems req.offset len end req.base_length) in
    (
      λ e.
          let (window, start, counts, base) = parts.0 ((==_iff _ 0).0 e) in
          let (given, given_length, given_end, ends) = settled.0 window in
          let counts' : pos 0 ≤ℤ len = ground (arith, (length-report _ _).0 counts) in
          record {
            given = given;
            given_length = given_length;
            given_end = given_end;
            start = ground (arith, (length-report _ _).0 start);
            counts = counts';
            ends = ends;
            inside = (base_problems_none req.offset len end req.base_length counts' ends).0 base;
          },
      λ w. (==_iff _ 0).1 (
          parts.1 (
            settled.1 (w.given, w.given_length, w.given_end, w.ends),
            (length-report _ _).1 (ground (arith, w.start)),
            (length-report _ _).1 (ground (arith, w.counts)),
            (base_problems_none req.offset len end req.base_length w.counts w.ends).1 w.inside,
          )),
    )
