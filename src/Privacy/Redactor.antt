-- ===== src/Privacy/Redactor.antt =====
-- redactor.go.
use code_rag.Common.{
  ℕ, String, Bool, true, false, List, [], ◌∷◌, ◌++◌, ◌||◌, ◌&&◌, not, ltb, pos_part, str_eq, length,
  take, if◌then◌else◌,
}
use code_rag.Privacy.Bytes.{Bytes, ascii, bytes_eq, contains}
use code_rag.Privacy.Policy.{PrivacyPolicy, allows_source, is_path_forbidden, is_path_allowed}
use code_rag.Privacy.Classifier.{ContentClassifier, is_secret, redact_secrets, classify_content}
use code_rag.Privacy.Pseudonymizer.{Pseudonymizer, pseudonymize_text}

-- the code sets only the reason of a redaction
pub record RedactionEntry : Type 0 where
  pub position : ℕ
  pub length : ℕ
  pub original : Bytes
  pub reason : String

pub record RedactionResult : Type 0 where
  pub original : Bytes
  pub sanitized : Bytes
  pub redactions : List RedactionEntry
  pub content_kind : String

pub record Redactor : Type 0 where
  pub classifier : ContentClassifier
  pub policy : PrivacyPolicy

abbrev pub because : String → RedactionEntry
because reason = record { position = 0; length = 0; original = []; reason = reason }

-- a text and the redactions so far
abbrev pub Redacting : Type 0
Redacting = Bytes × List RedactionEntry

unfoldable pub redact_secrets_step : Redactor → Bytes → Redacting
redact_secrets_step r content =
    let sanitized = redact_secrets r.classifier content in
    (sanitized, if bytes_eq sanitized content then [] else because "secret detected" ∷ [])

unfoldable pub redact_paths_step : Redactor → Bytes → Redacting → Redacting
redact_paths_step r content (sanitized, redactions) =
    let replaced = r.classifier.path_pattern.replace_all_string sanitized (ascii "***PATH***") in
    if is_path_forbidden r.policy content || not (is_path_allowed r.policy content)
    then (if bytes_eq replaced sanitized
        then (sanitized, redactions)
        else (replaced, redactions ++ because "path not allowed" ∷ []))
    else (sanitized, redactions)

unfoldable pub truncate_step : Redactor → Redacting → Redacting
truncate_step r (sanitized, redactions) =
    let max = pos_part r.policy.max_source_bytes in
    if ltb 0 max && ltb max (length sanitized)
    then (take max sanitized ++ ascii "...", redactions ++ because "max source bytes exceeded" ∷ [])
    else (sanitized, redactions)

unfoldable pub redact : Redactor → Bytes → RedactionResult
redact r content =
    let (sanitized, redactions) =
      truncate_step r (redact_paths_step r content (redact_secrets_step r content)) in
    let kind = classify_content r.classifier content in
    if str_eq r.policy.mode "LOCAL_ONLY"
    then record {
      original = content;
      sanitized = ascii "***LOCAL_ONLY***";
      redactions = because "privacy mode is LOCAL_ONLY" ∷ [];
      content_kind = kind;
    }
    else record {
      original = content;
      sanitized = sanitized;
      redactions = redactions;
      content_kind = kind;
    }

-- r.policy.Mode == ModeMasked || r.policy.Mode == ModeAbstract
unfoldable pub masks : PrivacyPolicy → Bool
masks p = str_eq p.mode "MASKED" || str_eq p.mode "ABSTRACT"

unfoldable pub redact_source : Redactor → List Bytes → Pseudonymizer → Bytes → RedactionResult
redact_source r names pseudos content =
    let result = redact r content in
    if not (allows_source r.policy)
    then record result {
      sanitized = ascii "***SOURCE_NOT_ALLOWED***";
      redactions = result.redactions ++ because "exact source not permitted by policy" ∷ [];
    }
    else if masks r.policy
    then record result { sanitized = pseudonymize_text names pseudos result.sanitized }
    else result

unfoldable pub is_allowed : Redactor → Bytes → Bool
is_allowed r content =
    if str_eq r.policy.mode "LOCAL_ONLY"
    then false
    else if is_secret r.classifier content && not r.policy.allow_strings
    then false
    else true

unfoldable pub has_secrets : Redactor → Bytes → Bool
has_secrets r content = is_secret r.classifier content

unfoldable pub has_forbidden_path : Redactor → Bytes → Bool
has_forbidden_path r content = is_path_forbidden r.policy content

unfoldable pub contains_any : List Bytes → Bytes → Bool
contains_any [] content = false
contains_any (id ∷ ids) content = if contains content id then true else contains_any ids content

unfoldable pub has_forbidden_identifier : Redactor → Bytes → Bool
has_forbidden_identifier r content = contains_any r.policy.forbidden_identifiers content
