-- ===== src/Privacy/Tests.antt =====
-- Runs of the privacy code.
use code_rag.Common.{
  ◌≤◌, true, some, List, [], ◌∷◌, ◌≡◌, ◌≢◌, ◌↔◌, refl, arith, pos, str_eq_iff, length,
}
use code_rag.Privacy.Bytes.{
  Bytes, ascii, bytes_eq, has_prefix, contains, replace_all, replace_from, fields, fields_from,
  add_word, space_width,
}
use code_rag.Privacy.Policy.{
  PrivacyPolicy, default_policy, parse_mode, lowers_to, to_lower, validate,
}
use code_rag.Privacy.Classifier.{Regexp, ContentClassifier, is_secret, matches_any}
use code_rag.Privacy.Pseudonymizer.{
  Pseudonymizer, new_pseudonymizer, find, counter, decimal, decimal_from, token_of, pseudonymize,
  resolve, pseudonymize_text, sort_by_length, insert_by_length, replace_names,
}
use code_rag.Privacy.Redactor.{Redactor, redact}
use code_rag.Privacy.Firewall.{new_firewall, sanitize_context}
use code_rag.Privacy.Tokens.{
  IsPseudonyms, new-IsPseudonyms, resolve-pseudonymize, pseudonymize_stable, pseudonymize_each,
  tokens_differ,
}
use code_rag.Privacy.Blocking.{IsClean, sanitize_context-allowed_iff, redact-bounded}

-- A pattern that matches the literal "secret".
abbrev literal : Regexp
literal = record {
  match_string = λ s. contains s (ascii "secret");
  replace_all_string_func = λ s f. replace_all s (ascii "secret") (f (ascii "secret"));
  find_string_submatch = λ s. s ∷ [];
  replace_all_string = λ s t. replace_all s (ascii "/etc") t;
}

abbrev classifier : ContentClassifier
classifier = record { secret_patterns = literal ∷ []; path_pattern = literal }

abbrev policy : PrivacyPolicy
policy = record (default_policy "p" "now") {
  forbidden_identifiers = ascii "Launch" ∷ [];
  forbidden_paths = ascii "/vault" ∷ [];
  max_source_bytes = pos 4;
}

abbrev redactor : Redactor
redactor = record { classifier = classifier; policy = policy }

sanitize_context-allowed_iff_example :
    ((sanitize_context
        (new_firewall classifier policy new_pseudonymizer)
        "now"
        []
        (ascii "func run")).allowed
      ≡ true)
    ↔ IsClean classifier policy (ascii "func run")
sanitize_context-allowed_iff_example =
    sanitize_context-allowed_iff classifier policy new_pseudonymizer "now" [] (ascii "func run")

full_mode : redactor.policy.mode ≢ "LOCAL_ONLY"
unfolding default_policy
full_mode e = ground (arith, str_eq_iff "FULL" "LOCAL_ONLY")

redact-bounded_example : length (redact redactor (ascii "func run")).sanitized ≤ 7
redact-bounded_example = redact-bounded redactor (ascii "func run") full_mode (omega arith)

abbrev func : Bytes
func = ascii "FUNC"

resolve-pseudonymize_example :
    (resolve
        (pseudonymize (ascii "run") func new_pseudonymizer).0
        (pseudonymize (ascii "run") func new_pseudonymizer).1
      ≡ some (ascii "run"))
    × IsPseudonyms (pseudonymize (ascii "run") func new_pseudonymizer).1
resolve-pseudonymize_example =
    resolve-pseudonymize (ascii "run") func new_pseudonymizer new-IsPseudonyms

abbrev one_name : Pseudonymizer
one_name = (pseudonymize (ascii "run") func new_pseudonymizer).1

run_has_token : find one_name.name_to_token (ascii "run") ≡ some (ascii "FUNC_1")
unfolding pseudonymize find counter token_of decimal decimal_from bytes_eq
run_has_token = refl

pseudonymize_stable_example :
    (find (pseudonymize (ascii "stop") func one_name).1.name_to_token (ascii "run")
      ≡ some (ascii "FUNC_1"))
    × (resolve (ascii "FUNC_1") (pseudonymize (ascii "stop") func one_name).1 ≡ some (ascii "run"))
pseudonymize_stable_example =
    pseudonymize_stable (ascii "stop") func (ascii "run") (ascii "FUNC_1") one_name
      resolve-pseudonymize_example.1 run_has_token

abbrev calls : List (Bytes × Bytes)
calls = (ascii "run", func) ∷ (ascii "stop", func) ∷ (ascii "run", func) ∷ []

calls_run :
    find (pseudonymize_each calls new_pseudonymizer).name_to_token (ascii "stop")
    ≡ some (ascii "FUNC_2")
unfolding pseudonymize_each pseudonymize find counter token_of decimal decimal_from bytes_eq
calls_run = refl

tokens_differ_example : ascii "stop" ≡ ascii "stop"
tokens_differ_example =
    tokens_differ calls (ascii "stop") (ascii "stop") (ascii "FUNC_2") calls_run calls_run

-- The longer name goes first.
text_runs :
    pseudonymize_text
      (ascii "run" ∷ ascii "runner" ∷ [])
      (pseudonymize (ascii "runner") func one_name).1
      (ascii "runner.run")
    ≡ ascii "FUNC_2.FUNC_1"
unfolding pseudonymize_text sort_by_length insert_by_length replace_names replace_all replace_from
    has_prefix pseudonymize find counter token_of decimal decimal_from bytes_eq
text_runs = refl

fields_run : fields (ascii " a  bc\n") ≡ ascii "a" ∷ ascii "bc" ∷ []
unfolding fields fields_from add_word space_width has_prefix
fields_run = refl

-- A policy in lower case is valid, and is not local.
abbrev lower_case : PrivacyPolicy
lower_case = record (default_policy "p" "now") { mode = "local_only" }

lower_case_leaks :
    (validate lower_case ≡ true)
    × ((sanitize_context
          (new_firewall classifier lower_case new_pseudonymizer)
          "now"
          []
          (ascii "func")).allowed
        ≡ true)
unfolding validate parse_mode lowers_to to_lower bytes_eq default_policy is_secret matches_any
    contains has_prefix
lower_case_leaks = (
  refl,
  (sanitize_context-allowed_iff classifier lower_case new_pseudonymizer "now" [] (ascii "func")).1
      (record {
        not_local = λ e. ground (arith, str_eq_iff "local_only" "LOCAL_ONLY");
        no_secret = refl;
        no_identifier = tt;
        no_path = tt;
      }),
)
