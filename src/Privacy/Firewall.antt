-- ===== src/Privacy/Firewall.antt =====
-- firewall.go. The time of a result is an argument, and so is the order in which PseudonymizeText
-- meets the names.
use code_rag.Common.{
  ℕ, String, Bool, true, false, List, [], ◌∷◌, ◌++◌, ◌&&◌, ltb, pos_part, str_eq, length, take,
  if◌then◌else◌,
}
use code_rag.Privacy.Bytes.{Bytes, ascii, fields, join_spaces}
use code_rag.Privacy.Policy.{PrivacyPolicy, disclosure, risk}
use code_rag.Privacy.Classifier.{ContentClassifier, is_secret, redact_secrets}
use code_rag.Privacy.Pseudonymizer.{Pseudonymizer, pseudonymize_text}
use code_rag.Privacy.Redactor.{
  RedactionEntry, Redactor, because, redact, masks, has_forbidden_identifier, has_forbidden_path,
}

pub record FirewallResult : Type 0 where
  pub allowed : Bool
  pub sanitized : Bytes
  pub redactions : List RedactionEntry
  pub disclosure : ℕ
  pub risk : String
  pub warnings : List String
  pub timestamp : String

pub record PrivacyFirewall : Type 0 where
  pub policy : PrivacyPolicy
  pub pseudos : Pseudonymizer
  pub redactor : Redactor
  pub classifier : ContentClassifier

-- `classifier` is what NewContentClassifier gives
unfoldable pub new_firewall : ContentClassifier → PrivacyPolicy → Pseudonymizer → PrivacyFirewall
new_firewall classifier policy pseudos = record {
  policy = policy;
  pseudos = pseudos;
  redactor = record { classifier = classifier; policy = policy };
  classifier = classifier;
}

module _ (f : PrivacyFirewall) (now : String) where
  abbrev pub blocked : Bytes → List RedactionEntry → List String → FirewallResult
  blocked sanitized redactions warnings = record {
    allowed = false;
    sanitized = sanitized;
    redactions = redactions;
    disclosure = disclosure f.policy;
    risk = risk f.policy;
    warnings = warnings;
    timestamp = now;
  }

  unfoldable pub limit_tokens : Bytes → List RedactionEntry → FirewallResult
  limit_tokens sanitized redactions =
      let max = pos_part f.policy.max_context_tokens in
      let tokens = fields sanitized in
      let passed : FirewallResult = record {
        allowed = true;
        sanitized = sanitized;
        redactions = redactions;
        disclosure = disclosure f.policy;
        risk = risk f.policy;
        warnings = [];
        timestamp = now;
      } in
      if ltb 0 max && ltb max (length tokens)
      then record passed {
        sanitized = join_spaces (take max tokens) ++ ascii "...";
        redactions = redactions ++ because "max context tokens exceeded" ∷ [];
      }
      else passed

  unfoldable pub sanitize_context : List Bytes → Bytes → FirewallResult
  sanitize_context names content =
      let redacted = redact f.redactor content in
      let text =
        if masks f.policy
        then pseudonymize_text names f.pseudos redacted.sanitized
        else redacted.sanitized in
      if str_eq f.policy.mode "LOCAL_ONLY"
      then blocked (ascii "***LOCAL_ONLY***") [] ("privacy mode is LOCAL_ONLY" ∷ [])
      else if is_secret f.classifier content
      then blocked (redact_secrets f.classifier content) (because "secret detected" ∷ [])
          ("secret detected - blocked" ∷ [])
      else if has_forbidden_identifier f.redactor content
      then blocked (ascii "***FORBIDDEN_IDENTIFIER***") [] ("forbidden identifier present" ∷ [])
      else if has_forbidden_path f.redactor content
      then blocked (ascii "***FORBIDDEN_PATH***") [] ("forbidden path present" ∷ [])
      else limit_tokens text redacted.redactions

  -- Abstract, which looks for no secret to block and no forbidden name
  unfoldable pub abstract_content : Bytes → FirewallResult
  abstract_content content =
      let abstracted = f.classifier.path_pattern.replace_all_string content (ascii "***PATH***") in
      if str_eq f.policy.mode "LOCAL_ONLY"
      then blocked (ascii "***LOCAL_ONLY***") [] []
      else record (blocked (redact_secrets f.classifier abstracted) [] []) { allowed = true }

  unfoldable pub validate_context : List Bytes → Bytes → Bool
  validate_context names content = (sanitize_context names content).allowed

pub record AuditEntry : Type 0 where
  pub destination : String
  pub allowed : Bool
  pub disclosure : ℕ
  pub risk : String
  pub warnings : List String
  pub redactions : ℕ
  pub timestamp : String

unfoldable pub audit_transmission :
    PrivacyFirewall → String → List Bytes → String → Bytes → AuditEntry
audit_transmission f now names destination content =
    let result = sanitize_context f now names content in
    record {
      destination = destination;
      allowed = result.allowed;
      disclosure = result.disclosure;
      risk = result.risk;
      warnings = result.warnings;
      redactions = length result.redactions;
      timestamp = result.timestamp;
    }
