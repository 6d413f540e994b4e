-- ===== src/Privacy/Tokens.antt =====
-- Pseudonyms can be resolved, stay as they are, and differ for different names.
use code_rag.Common.{
  ℕ, zero, suc, ◌+◌, ◌-◌, ◌*◌, ◌/◌, ◌%◌, ◌≤◌, ◌<◌, none, some, List, [], ◌∷◌, ◌++◌, ◌≡◌, ◌≢◌, refl,
  sym, ap, ◌∙◌, ◌⊎◌, inl, inr, arith, ltb, All, All-append, Bool-cases, Option-cases,
}
use code_rag.Privacy.Bytes.{Bytes, bytes_eq, bytes_eq_iff}
use code_rag.Privacy.Pseudonymizer.{
  Pseudonymizer, new_pseudonymizer, find, counter, decimal_from, decimal, token_of, pseudonymize,
  resolve,
}

-- The number that digits stand for.
value : ℕ → Bytes → ℕ
value acc [] = acc
value acc (d ∷ ds) = value (acc * 10 + (d - 48)) ds

value-snoc :
    (acc : ℕ) (ds : Bytes) (d : ℕ) → value acc (ds ++ d ∷ []) ≡ value acc ds * 10 + (d - 48)
unfolding value
value-snoc acc [] d = refl
value-snoc acc (e ∷ ds) d = value-snoc (acc * 10 + (e - 48)) ds d

value-decimal_from : (fuel n : ℕ) → n < fuel → value 0 (decimal_from fuel n) ≡ n
unfolding decimal_from value
value-decimal_from zero n l = absurd (omega (arith, l))
value-decimal_from (suc fuel) n l = elim (Bool-cases (ltb n 10)) [
  | inl small ↦ rw small (omega arith)
  | inr large ↦ rw large (
      rw
        (
          value-snoc 0 (decimal_from fuel (n / 10)) (48 + n % 10),
          value-decimal_from fuel (n / 10) (ground arith),
        )
        (omega arith))
]

decimal_injective : (m n : ℕ) → decimal m ≡ decimal n → m ≡ n
unfolding decimal
decimal_injective m n e =
    sym (value-decimal_from (suc m) m (omega arith))
    ∙ (ap (value 0) e ∙ value-decimal_from (suc n) n (omega arith))

abbrev IsDigit : ℕ → Type 0
IsDigit d = d ≤ 57

decimal_from-IsDigit : (fuel n : ℕ) → All IsDigit (decimal_from fuel n)
unfolding decimal_from
decimal_from-IsDigit zero n = tt
decimal_from-IsDigit (suc fuel) n = elim (Bool-cases (ltb n 10)) [
  | inl small ↦ rw small (ground arith, tt)
  | inr large ↦ rw large (
      All-append IsDigit (decimal_from fuel (n / 10)) _ (decimal_from-IsDigit fuel (n / 10))
        (omega arith, tt))
]

not_digits : (xs ys : Bytes) → ¬ All IsDigit (xs ++ 95 ∷ ys)
not_digits [] ys h = omega (arith, h.0)
not_digits (x ∷ xs) ys h = not_digits xs ys h.1

-- The last underscore splits a token.
split_injective :
    (k l d e : Bytes)
    → All IsDigit d
    → All IsDigit e
    → k ++ 95 ∷ d ≡ l ++ 95 ∷ e
    → (k ≡ l) × (d ≡ e)
split_injective [] [] d e dd de h = (refl, cc)
split_injective [] (y ∷ l) d e dd de h =
    let same : d ≡ l ++ 95 ∷ e = cc in absurd (not_digits l e (rw same at dd))
split_injective (x ∷ k) [] d e dd de h =
    let same : e ≡ k ++ 95 ∷ d = cc in absurd (not_digits k d (rw same at de))
split_injective (x ∷ k) (y ∷ l) d e dd de h =
    let head : x ≡ y = cc in
    let tail : k ++ 95 ∷ d ≡ l ++ 95 ∷ e = cc in
    let (front, back) = split_injective k l d e dd de tail in (λ i. head i ∷ front i, back)

-- A token names its kind and its number.
pub token_of_injective :
    (kind kind' : Bytes) (n n' : ℕ)
    → token_of kind n ≡ token_of kind' n'
    → (kind ≡ kind') × (n ≡ n')
unfolding token_of decimal
token_of_injective kind kind' n n' e =
    let (same, digits) =
      split_injective kind kind' (decimal n) (decimal n') (decimal_from-IsDigit (suc n) n)
        (decimal_from-IsDigit (suc n') n') e in
    (same, decimal_injective n n' digits)

-- A token of the tables leads back to its name, and its number has been counted.
pub record IsPseudonyms (p : Pseudonymizer) : Type 0 where
  pub resolves :
      (name t : Bytes) → find p.name_to_token name ≡ some t → find p.token_to_name t ≡ some name
  pub numbered :
      (t name : Bytes)
      → find p.token_to_name t ≡ some name
      → (kind : Bytes) × (n : ℕ) × (t ≡ token_of kind n) × (n ≤ counter p.counters kind)

find-cons :
    (k v key : Bytes) (m : List (Bytes × Bytes)) (x : Bytes)
    → find ((k, v) ∷ m) key ≡ some x
    → ((k ≡ key) × (v ≡ x)) ⊎ ((k ≢ key) × (find m key ≡ some x))
unfolding find
find-cons k v key m x e = elim (Bool-cases (bytes_eq k key)) [
  | inl hit ↦ inl ((bytes_eq_iff k key).0 hit, ground arith)
  | inr miss ↦ inr (λ q. ground (arith, bytes_eq_iff k key), ground arith)
]

find-hit : {A : Type 0} → (k : Bytes) (v : A) (m : List (Bytes × A)) → find ((k, v) ∷ m) k ≡ some v
unfolding find
find-hit k v m = rw ((bytes_eq_iff k k).1 refl) refl

find-miss :
    {A : Type 0}
    → (k key : Bytes) (v : A) (m : List (Bytes × A)) → k ≢ key
    → find ((k, v) ∷ m) key ≡ find m key
unfolding find
find-miss k key v m n = elim (Bool-cases (bytes_eq k key)) [
  | inl hit ↦ absurd (n ((bytes_eq_iff k key).0 hit))
  | inr miss ↦ rw miss refl
]

abbrev next_token : Bytes → Pseudonymizer → Bytes
next_token kind p = token_of kind (counter p.counters kind + 1)

-- The table after a new name.
abbrev added : Bytes → Bytes → Pseudonymizer → Pseudonymizer
added name kind p = record {
  name_to_token = (name, next_token kind p) ∷ p.name_to_token;
  token_to_name = (next_token kind p, name) ∷ p.token_to_name;
  counters = (kind, counter p.counters kind + 1) ∷ p.counters;
}

pseudonymize_new :
    (name kind : Bytes) (p : Pseudonymizer)
    → find p.name_to_token name ≡ none
    → pseudonymize name kind p ≡ (next_token kind p, added name kind p)
unfolding pseudonymize
pseudonymize_new name kind p e = ground arith

pseudonymize_old :
    (name kind : Bytes) (p : Pseudonymizer) (t : Bytes)
    → find p.name_to_token name ≡ some t
    → pseudonymize name kind p ≡ (t, p)
unfolding pseudonymize
pseudonymize_old name kind p t e = ground arith

next_token_fresh :
    (kind : Bytes) (p : Pseudonymizer) (t name : Bytes)
    → IsPseudonyms p
    → find p.token_to_name t ≡ some name
    → next_token kind p ≢ t
next_token_fresh kind p t name v e same =
    let (kind', n, is, counted) = v.numbered t name e in
    let (kinds, numbers) =
      token_of_injective kind kind' (counter p.counters kind + 1) n (same ∙ is) in
    omega (arith, numbers, rw (← kinds) at counted)

counter-cons :
    (kind kind' : Bytes) (m : List (Bytes × ℕ))
    → counter m kind' ≤ counter ((kind, counter m kind + 1) ∷ m) kind'
unfolding counter find
counter-cons kind kind' m = elim (Bool-cases (bytes_eq kind kind')) [
  | inl hit ↦ ground (arith, ap (counter m) ((bytes_eq_iff kind kind').0 hit))
  | inr miss ↦ ground arith
]

counter_hit : (kind : Bytes) (n : ℕ) (m : List (Bytes × ℕ)) → counter ((kind, n) ∷ m) kind ≡ n
unfolding counter
counter_hit kind n m = ground (arith, find-hit kind n m)

added-IsPseudonyms :
    (name kind : Bytes) (p : Pseudonymizer) → IsPseudonyms p → IsPseudonyms (added name kind p)
added-IsPseudonyms name kind p v = record {
  resolves = λ other t e. elim (find-cons name (next_token kind p) other p.name_to_token t e) [
    | inl (same, token) ↦ rw (← token, ← same) (find-hit (next_token kind p) name p.token_to_name)
    | inr (differs, old) ↦
        let known = v.resolves other t old in
        find-miss (next_token kind p) t name p.token_to_name
          (next_token_fresh kind p t other v known)
        ∙ known
  ];
  numbered = λ t other e. elim (find-cons (next_token kind p) name t p.token_to_name other e) [
    | inl (same, named) ↦ (
      kind,
      counter p.counters kind + 1,
      sym same,
      rw (counter_hit kind (counter p.counters kind + 1) p.counters) (omega arith),
    )
    | inr (differs, old) ↦
        let (kind', n, is, counted) = v.numbered t other old in
        (kind', n, is, omega (arith, counted, counter-cons kind kind' p.counters))
  ];
}

-- A pseudonym resolves to the name it was made for, at once, and the tables stay consistent.
pub resolve-pseudonymize :
    (name kind : Bytes) (p : Pseudonymizer)
    → IsPseudonyms p
    → (resolve (pseudonymize name kind p).0 (pseudonymize name kind p).1 ≡ some name)
      × IsPseudonyms (pseudonymize name kind p).1
unfolding resolve
resolve-pseudonymize name kind p v = elim (Option-cases (find p.name_to_token name)) [
  | inl new ↦
      rw (pseudonymize_new name kind p new)
        (find-hit (next_token kind p) name p.token_to_name, added-IsPseudonyms name kind p v)
  | inr (t, old) ↦ rw (pseudonymize_old name kind p t old) (v.resolves name t old, v)
]

resolve_known :
    (other t : Bytes) (q : Pseudonymizer)
    → IsPseudonyms q
    → find q.name_to_token other ≡ some t
    → resolve t q ≡ some other
unfolding resolve
resolve_known other t q w k = w.resolves other t k

-- Later calls change no pseudonym: a token still resolves to its name, and the name still has it.
pub pseudonymize_stable :
    (name kind other t : Bytes) (p : Pseudonymizer)
    → IsPseudonyms p
    → find p.name_to_token other ≡ some t
    → (find (pseudonymize name kind p).1.name_to_token other ≡ some t)
      × (resolve t (pseudonymize name kind p).1 ≡ some other)
pseudonymize_stable name kind other t p v e =
    let (_, v') = resolve-pseudonymize name kind p v in
    let kept : find (pseudonymize name kind p).1.name_to_token other ≡ some t =
      elim (Option-cases (find p.name_to_token name)) [
        | inl new ↦ rw (pseudonymize_new name kind p new) (
            find-miss name other (next_token kind p) p.name_to_token
              (λ same. ground (arith, sym new ∙ (ap (find p.name_to_token) same ∙ e)))
            ∙ e)
        | inr (s, old) ↦ rw (pseudonymize_old name kind p s old) e
      ] in
    (kept, resolve_known other t _ v' kept)

-- A sequence of calls.
unfoldable pub pseudonymize_each : List (Bytes × Bytes) → Pseudonymizer → Pseudonymizer
pseudonymize_each [] p = p
pseudonymize_each ((name, kind) ∷ calls) p = pseudonymize_each calls (pseudonymize name kind p).1

pseudonymize_each-IsPseudonyms :
    (calls : List (Bytes × Bytes)) (p : Pseudonymizer)
    → IsPseudonyms p
    → IsPseudonyms (pseudonymize_each calls p)
unfolding pseudonymize_each
pseudonymize_each-IsPseudonyms [] p v = v
pseudonymize_each-IsPseudonyms ((name, kind) ∷ calls) p v =
    pseudonymize_each-IsPseudonyms calls (pseudonymize name kind p).1
      (resolve-pseudonymize name kind p v).1

pub new-IsPseudonyms : IsPseudonyms new_pseudonymizer
unfolding find
new-IsPseudonyms = record { resolves = λ name t e. cc; numbered = λ t name e. absurd cc }

-- After any sequence of calls on a new pseudonymizer, two names with one token are one name.
pub tokens_differ :
    (calls : List (Bytes × Bytes)) (name other t : Bytes)
    → find (pseudonymize_each calls new_pseudonymizer).name_to_token name ≡ some t
    → find (pseudonymize_each calls new_pseudonymizer).name_to_token other ≡ some t
    → name ≡ other
tokens_differ calls name other t e e' =
    let v = pseudonymize_each-IsPseudonyms calls new_pseudonymizer new-IsPseudonyms in
    let r = v.resolves name t e in let r' = v.resolves other t e' in cc
