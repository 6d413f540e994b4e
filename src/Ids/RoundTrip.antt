-- ===== src/Ids/RoundTrip.antt =====
-- Building an identifier and parsing it back.
use Prim.Native.Char.{code}
use Prim.Native.String.{◌++◌}
use text.Mathlib.TextLemmas.{cons-append, nil-append}
use text.Mathlib.TextEquality.{Char-path}
use mathlib.Core.Path.{ap₂}
use code_rag.Common.{
  String, true, some, ◌≡◌, refl, ◌==◌, ◌≢◌, str_eq, str_eq_iff, ◌||◌, not, arith, ap, subst, ◌∙◌,
  Bool-cases, Option-cases, inl, inr, ==_iff,
}
use code_rag.Ids.{is_known, cut_colon, parse}

abbrev pub NoColon : String → Type 0
NoColon String.[] = Unit {0}
NoColon (String.◌∷◌ c s) = (code c ≢ b':') × NoColon s

abbrev pub with_kind : String → String → String
with_kind kind rest = kind ++ ":" ++ rest

colon-append : (rest : String) → ":" ++ rest ≡ String.◌∷◌ ":" rest
colon-append rest = cons-append ":" "" rest ∙ ap (String.◌∷◌ ":") (nil-append rest)

pub cut_colon-with_kind :
    (kind rest : String) → NoColon kind → cut_colon (with_kind kind rest) ≡ some (kind, rest)
unfolding cut_colon
cut_colon-with_kind String.[] rest h = rw (nil-append, colon-append) refl
cut_colon-with_kind (String.◌∷◌ c s) rest h =
    rw cons-append (ground (arith, cut_colon-with_kind s rest h.1))

empty_unknown : ¬ (is_known "" ≡ true)
unfolding is_known
empty_unknown h = cc

-- An identifier built from a known kind, which has no colon, is parsed into the same kind and rest.
pub parse-with_kind :
    (kind rest : String)
    → NoColon kind
    → is_known kind ≡ true
    → parse (with_kind kind rest) ≡ (kind, rest, true)
unfolding parse
parse-with_kind kind rest h k = elim (Bool-cases (str_eq kind "")) [
  | inl e ↦ absurd (empty_unknown (rw ((str_eq_iff kind "").0 e) at k))
  | inr e ↦ rw (cut_colon-with_kind kind rest h, parse) (rw (e, k))
]

cut_colon-eq-some :
    (id kind rest : String)
    → cut_colon id ≡ some (kind, rest)
    → (id ≡ with_kind kind rest) × NoColon kind
unfolding cut_colon
cut_colon-eq-some String.[] kind rest h = cc
cut_colon-eq-some (String.◌∷◌ c s) kind rest h = elim (Bool-cases (code c == b':')) [
  | inl e ↦
      let p : ("" ≡ kind) × (s ≡ rest) = ground arith in
      (
        rw (← p.0, ← p.1, nil-append, colon-append, Char-path c ":" ((==_iff (code c) b':').0 e)),
        subst NoColon p.0 tt,
      )
  | inr e ↦ elim (Option-cases (cut_colon s)) [
    | inl f ↦ absurd (ground arith)
    | inr (kr, f) ↦
        let p : (String.◌∷◌ c kr.0 ≡ kind) × (kr.1 ≡ rest) = ground arith in
        let (q, no_colon) = cut_colon-eq-some s kr.0 kr.1 f in
        (
          rw (← p.0, ← p.1, cons-append) (ap (String.◌∷◌ c) q),
          subst NoColon p.0 (λ eq. ground arith, no_colon),
        )
  ]
]

-- An identifier that parses is its kind, a colon and its rest; the kind is known and has no colon.
pub parse-eq-true :
    (id kind rest : String)
    → parse id ≡ (kind, rest, true)
    → (id ≡ with_kind kind rest) × NoColon kind × (is_known kind ≡ true)
unfolding parse
parse-eq-true id kind rest h = elim (Option-cases (cut_colon id)) [
  | inl e ↦ absurd (ground arith)
  | inr (kr, e) ↦ elim (Bool-cases (str_eq kr.0 "" || not (is_known kr.0))) [
    | inl no_kind ↦ absurd (ground arith)
    | inr ok_kind ↦
        let p : (kr.0 ≡ kind) × (kr.1 ≡ rest) × (is_known kr.0 ≡ true) = ground arith in
        let (q, no_colon) = cut_colon-eq-some id kr.0 kr.1 e in
        (q ∙ ap₂ with_kind p.0 p.1, subst NoColon p.0 no_colon, rw (← p.0) p.2)
  ]
]
