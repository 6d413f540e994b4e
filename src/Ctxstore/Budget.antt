-- ===== src/Ctxstore/Budget.antt =====
-- What pack writes stays within its budget.
use Prim.Native.String.{◌++◌ as str_append}
use text.Mathlib.TextLemmas.{cons-append, nil-append}
use code_rag.Common.{
  ℕ, suc, ◌+◌, ◌≤◌, ℤ, pos, pos_part, String, true, false, List, [], ◌∷◌, ◌≡◌, refl, sym, subst,
  arith, Bool-cases, ◌⊎◌, inl, inr, All,
}
use code_rag.Ctxstore.Records.{byte_length, estimate_tokens, fits, pack_lines, pack}

byte_length-append : (s t : String) → byte_length (str_append s t) ≡ byte_length s + byte_length t
unfolding byte_length
byte_length-append String.[] t = ground (arith, nil-append t)
byte_length-append (String.◌∷◌ c s) t =
    rw (cons-append c s t) (omega (arith, byte_length-append s t))

estimate-append :
    (s t : String) → estimate_tokens (str_append s t) ≤ estimate_tokens s + estimate_tokens t
unfolding estimate_tokens
estimate-append s t = rw (byte_length-append s t) (omega arith)

estimate_empty : estimate_tokens "" ≡ 0
unfolding estimate_tokens byte_length
estimate_empty = refl

-- A text within the budget, or nothing taken.
abbrev IsPacked : ℤ → ℕ → String → List String → String × List ℕ → Type 0
IsPacked budget used text lines (out, included) =
    ((included ≡ [])
      × (out ≡ text)
      × All (λ l. fits budget (used + estimate_tokens l) ≡ false) lines)
    ⊎ (estimate_tokens out ≤ pos_part budget)

pack_lines_lem :
    (budget : ℤ) (i used : ℕ) (text : String) (lines : List String)
    → estimate_tokens text ≤ used
    → IsPacked budget used text lines (pack_lines budget i used text lines)
unfolding pack_lines
pack_lines_lem budget i used text [] h = inl (refl, refl, tt)
pack_lines_lem budget i used text (l ∷ lines) h =
    let c = estimate_tokens l in
    elim (Bool-cases (fits budget (used + c))) [
      | inl within ↦
          let longer = estimate-append text l in
          let room : used + c ≤ pos_part budget = fits-≤ budget (used + c) within in
          rw within (
            inr (
              taken budget (suc i) (used + c) (str_append text l) lines room
                (pack_lines_lem budget (suc i) (used + c) (str_append text l) lines
                  (omega (arith, longer, h)))
                (omega (arith, longer, h))))
      | inr over ↦
          let skipped = pack_lines budget (suc i) used text lines in
          let same : pack_lines budget i used text (l ∷ lines) ≡ skipped = rw over refl in
          subst (IsPacked budget used text (l ∷ lines)) (sym same) (
            skip budget used text l lines skipped over
              (pack_lines_lem budget (suc i) used text lines h))
    ]
  where
    fits-≤ : (budget : ℤ) (n : ℕ) → fits budget n ≡ true → n ≤ pos_part budget
    fits-≤ (pos b) n h = ground arith
    fits-≤ (ℤ.negsuc b) n h = ground arith

    taken :
        (budget : ℤ) (i used : ℕ) (text : String) (lines : List String)
        → used ≤ pos_part budget
        → IsPacked budget used text lines (pack_lines budget i used text lines)
        → estimate_tokens text ≤ used
        → estimate_tokens (pack_lines budget i used text lines).0 ≤ pos_part budget
    taken budget i used text lines room (inl (none_taken, same, all)) h =
        rw same (omega (arith, h, room))
    taken budget i used text lines room (inr within) h = within

    skip :
        (budget : ℤ) (used : ℕ) (text l : String) (lines : List String) (out : String × List ℕ)
        → fits budget (used + estimate_tokens l) ≡ false
        → IsPacked budget used text lines out
        → IsPacked budget used text (l ∷ lines) out
    skip budget used text l lines out over (inl (none_taken, same, all)) =
        inl (none_taken, same, (over, all))
    skip budget used text l lines out over (inr within) = inr within

pack_lem :
    (header : String) (budget : ℤ) (lines : List String)
    → let (out, included) = pack header budget lines in
      ((out ≡ "")
        × (included ≡ [])
        × All (λ l. fits budget (estimate_tokens header + estimate_tokens l) ≡ false) lines)
      ⊎ (estimate_tokens out ≤ pos_part budget)
unfolding pack
pack_lem header budget lines =
    let used = estimate_tokens header in
    from_lines budget used header lines (pack_lines budget 0 used header lines)
      (pack_lines_lem budget 0 used header lines (omega arith))
  where
    from_lines :
        (budget : ℤ) (used : ℕ) (header : String) (lines : List String) (out : String × List ℕ)
        → IsPacked budget used header lines out
        → let (text, included) = elim (out.1) as (λ x. String × List ℕ) [
          | [] ↦ ("", [])
          | i ∷ rest ↦ (out.0, i ∷ rest)
        ] in
          ((text ≡ "")
            × (included ≡ [])
            × All (λ l. fits budget (used + estimate_tokens l) ≡ false) lines)
          ⊎ (estimate_tokens text ≤ pos_part budget)
    from_lines budget used header lines (text, included) (inl (nothing, same, all)) =
        rw nothing (inl (refl, refl, all))
    from_lines budget used header lines (text, []) (inr within) =
        inr (omega (arith, estimate_empty))
    from_lines budget used header lines (text, i ∷ rest) (inr within) = inr within

-- The estimate of what pack writes is within the budget, or 0 where that is below 0.
pub pack-≤ :
    (header : String) (budget : ℤ) (lines : List String)
    → estimate_tokens (pack header budget lines).0 ≤ pos_part budget
pack-≤ header budget lines = elim (pack_lem header budget lines) [
  | inl (empty, nothing, all) ↦ rw empty (omega (arith, estimate_empty))
  | inr within ↦ within
]
