-- ===== src/Ctxstore/Packed.antt =====
-- pack of internal/ctxstore/digest.go against a choice of lines: each line in turn is taken where it still
-- fits the budget, and skipped where it does not.
use Prim.Native.String.{◌++◌ as str_append}
use text.Mathlib.TextLemmas.{append-nil, append_assoc}
use code_rag.Common.{
  ℕ, suc, ◌+◌, ℤ, pos, ◌≤ℤ◌, String, Bool, true, false, List, [], ◌∷◌, ◌≡◌, ◌↔◌, refl, ◌∙◌, sym, ap,
  arith, Bool-cases, inl, inr,
}
use code_rag.Ctxstore.Records.{estimate_tokens, fits, pack_lines, pack}

-- One choice for each line, and the line is chosen just where the tokens used so far and its own estimate
-- are within the budget.
abbrev pub Picks : ℤ → ℕ → List String → List Bool → Type 0
Picks budget used [] [] = Unit
Picks budget used [] (b ∷ flags) = ⊥
Picks budget used (l ∷ lines) [] = ⊥
Picks budget used (l ∷ lines) (true ∷ flags) =
    (pos (used + estimate_tokens l) ≤ℤ budget) × Picks budget (used + estimate_tokens l) lines flags
Picks budget used (l ∷ lines) (false ∷ flags) =
    (¬ (pos (used + estimate_tokens l) ≤ℤ budget)) × Picks budget used lines flags

-- the chosen elements
abbrev pub picked {ℓ} : {A : Type ℓ} → List A → List Bool → List A
picked [] flags = []
picked (x ∷ xs) [] = []
picked (x ∷ xs) (true ∷ flags) = x ∷ picked xs flags
picked (x ∷ xs) (false ∷ flags) = picked xs flags

abbrev pub joined : List String → String
joined [] = ""
joined (l ∷ lines) = str_append l (joined lines)

-- Nothing where no line is chosen, and otherwise the header and the chosen lines.
abbrev pub digest_of : String → List String → String
digest_of header [] = ""
digest_of header (l ∷ lines) = str_append header (joined (l ∷ lines))

-- the indices of the chosen lines, from i on
abbrev pub positions : ℕ → List Bool → List ℕ
positions i [] = []
positions i (true ∷ flags) = i ∷ positions (suc i) flags
positions i (false ∷ flags) = positions (suc i) flags

fits_iff : (budget : ℤ) (n : ℕ) → (fits budget n ≡ true) ↔ (pos n ≤ℤ budget)
fits_iff budget n = ground arith

pack_lines-Picks :
    (budget : ℤ) (i used : ℕ) (text : String) (lines : List String)
    → (flags : List Bool) × Picks budget used lines flags
      × (pack_lines budget i used text lines
          ≡ (str_append text (joined (picked lines flags)), positions i flags))
unfolding pack_lines
pack_lines-Picks budget i used text [] = ([], tt, ap (λ t. (t, [])) (sym (append-nil text)))
pack_lines-Picks budget i used text (l ∷ lines) =
    let c = estimate_tokens l in
    elim (Bool-cases (fits budget (used + c))) [
      | inl within ↦
          let (flags, picks, same) =
            pack_lines-Picks budget (suc i) (used + c) (str_append text l) lines in
          (
            true ∷ flags,
            ((fits_iff budget (used + c)).0 within, picks),
            rw (within, same)
                (ap (λ t. (t, i ∷ positions (suc i) flags))
                  (append_assoc text l (joined (picked lines flags)))),
          )
      | inr over ↦
          let (flags, picks, same) = pack_lines-Picks budget (suc i) used text lines in
          (
            false ∷ flags,
            (λ h. ground (arith, (fits_iff budget (used + c)).1 h), picks),
            rw over same,
          )
    ]

-- the end of pack
abbrev closed : String × List ℕ → String × List ℕ
closed (text, included) = elim included as (λ x. String × List ℕ) [
  | [] ↦ ("", [])
  | i ∷ rest ↦ (text, i ∷ rest)
]

-- No position is chosen just where no line is.
closed-picked :
    (budget : ℤ) (i used : ℕ) (lines : List String) (flags : List Bool) (header : String)
    → Picks budget used lines flags
    → closed (str_append header (joined (picked lines flags)), positions i flags)
      ≡ (digest_of header (picked lines flags), positions i flags)
closed-picked budget i used [] [] header h = refl
closed-picked budget i used [] (b ∷ flags) header h = absurd h
closed-picked budget i used (l ∷ lines) [] header h = absurd h
closed-picked budget i used (l ∷ lines) (true ∷ flags) header h = refl
closed-picked budget i used (l ∷ lines) (false ∷ flags) header h =
    closed-picked budget (suc i) used lines flags header h.1

pub pack-Picks :
    (header : String) (budget : ℤ) (lines : List String)
    → (flags : List Bool) × Picks budget (estimate_tokens header) lines flags
      × (pack header budget lines ≡ (digest_of header (picked lines flags), positions 0 flags))
unfolding pack
pack-Picks header budget lines =
    let used = estimate_tokens header in
    let (flags, picks, same) = pack_lines-Picks budget 0 used header lines in
    (flags, picks, ap closed same ∙ closed-picked budget 0 used lines flags header picks)
