-- ===== src/Privacy/Blocking.antt =====
-- What the firewall lets through.
use code_rag.Common.{
  ◌+◌, ◌≤◌, ◌<◌, true, false, String, List, [], ◌∷◌, ◌≡◌, ◌≢◌, ◌↔◌, refl, arith, str_eq_iff, All,
  pos_part, length, take, length-append, length-take,
}
use code_rag.Privacy.Bytes.{Bytes, ascii, contains, has_prefix}
use code_rag.Privacy.Policy.{PrivacyPolicy, is_path_forbidden, has_prefix_entry}
use code_rag.Privacy.Classifier.{ContentClassifier, is_secret, redact_secrets}
use code_rag.Privacy.Pseudonymizer.{Pseudonymizer}
use code_rag.Privacy.Redactor.{
  Redactor, Redacting, redact, contains_any, has_forbidden_identifier, has_forbidden_path,
  truncate_step, redact_paths_step, redact_secrets_step,
}
use code_rag.Privacy.Firewall.{PrivacyFirewall, new_firewall, limit_tokens, sanitize_context}

contains_any_iff :
    (ids : List Bytes) (content : Bytes)
    → (contains_any ids content ≡ false) ↔ All (λ id. contains content id ≡ false) ids
unfolding contains_any
contains_any_iff [] content = (λ e. tt, λ e. refl)
contains_any_iff (id ∷ ids) content = ground (arith, contains_any_iff ids content)

has_prefix_entry_iff :
    (paths : List Bytes) (content : Bytes)
    → (has_prefix_entry paths content ≡ false) ↔ All (λ path. has_prefix content path ≡ false) paths
unfolding has_prefix_entry
has_prefix_entry_iff [] content = (λ e. tt, λ e. refl)
has_prefix_entry_iff (path ∷ paths) content = ground (arith, has_prefix_entry_iff paths content)

-- The firewall of a policy blocks nothing of these: the mode allows transmission, no secret is
-- found, no forbidden identifier occurs, and no forbidden path is a prefix.
pub record IsClean (c : ContentClassifier) (p : PrivacyPolicy) (content : Bytes) : Type 0 where
  pub not_local : p.mode ≢ "LOCAL_ONLY"
  pub no_secret : is_secret c content ≡ false
  pub no_identifier : All (λ id. contains content id ≡ false) p.forbidden_identifiers
  pub no_path : All (λ path. has_prefix content path ≡ false) p.forbidden_paths

module _ (c : ContentClassifier) (p : PrivacyPolicy) (ps : Pseudonymizer) where
  abbrev wall : PrivacyFirewall
  wall = record {
    policy = p;
    pseudos = ps;
    redactor = record { classifier = c; policy = p };
    classifier = c;
  }

  new_firewall-wall : new_firewall c p ps ≡ wall
  unfolding new_firewall
  new_firewall-wall = refl

  wall-allowed_iff :
      (now : String) (names : List Bytes) (content : Bytes)
      → ((sanitize_context wall now names content).allowed ≡ true) ↔ IsClean c p content
  unfolding sanitize_context limit_tokens has_forbidden_identifier has_forbidden_path
      is_path_forbidden
  wall-allowed_iff now names content = ground (
    arith,
    str_eq_iff p.mode "LOCAL_ONLY",
    contains_any_iff p.forbidden_identifiers content,
    has_prefix_entry_iff p.forbidden_paths content,
  )

-- A firewall allows a content exactly when the policy's mode is not LOCAL_ONLY, the classifier finds
-- no secret, no forbidden identifier occurs in the content, and no forbidden path is a prefix of it. So a
-- forbidden path that occurs only further on in the content does not block it.
pub sanitize_context-allowed_iff :
    (c : ContentClassifier) (p : PrivacyPolicy) (ps : Pseudonymizer) (now : String)
    (names : List Bytes) (content : Bytes)
    → ((sanitize_context (new_firewall c p ps) now names content).allowed ≡ true)
      ↔ IsClean c p content
sanitize_context-allowed_iff c p ps now names content =
    rw (new_firewall-wall c p ps) (wall-allowed_iff c p ps now names content)

-- What a refused transmission carries, and why: the first reason that holds decides. Only where a
-- secret is found is it made of the content, with the secrets redacted.
abbrev pub IsWithheld : ContentClassifier → PrivacyPolicy → Bytes → Bytes → Type 0
IsWithheld c p content sanitized =
    (p.mode ≡ "LOCAL_ONLY" → sanitized ≡ ascii "***LOCAL_ONLY***")
    × (p.mode ≢ "LOCAL_ONLY" → is_secret c content ≡ true → sanitized ≡ redact_secrets c content)
    × (p.mode ≢ "LOCAL_ONLY"
        → is_secret c content ≡ false
        → ¬ All (λ id. contains content id ≡ false) p.forbidden_identifiers
        → sanitized ≡ ascii "***FORBIDDEN_IDENTIFIER***")
    × (p.mode ≢ "LOCAL_ONLY"
        → is_secret c content ≡ false
        → All (λ id. contains content id ≡ false) p.forbidden_identifiers
        → ¬ All (λ path. has_prefix content path ≡ false) p.forbidden_paths
          × (sanitized ≡ ascii "***FORBIDDEN_PATH***"))

truncate_step-bounded :
    (r : Redactor) (s : Redacting)
    → 0 < pos_part r.policy.max_source_bytes
    → length (truncate_step r s).0 ≤ pos_part r.policy.max_source_bytes + 3
unfolding truncate_step
truncate_step-bounded r s some_max = ground (
  arith,
  length-append (take (pos_part r.policy.max_source_bytes) s.0) (ascii "..."),
  length-take (pos_part r.policy.max_source_bytes) s.0,
)

-- Redaction with a positive byte limit, in a mode other than LOCAL_ONLY, gives at most that many bytes
-- and the three of the ellipsis.
pub redact-bounded :
    (r : Redactor) (content : Bytes)
    → r.policy.mode ≢ "LOCAL_ONLY"
    → 0 < pos_part r.policy.max_source_bytes
    → length (redact r content).sanitized ≤ pos_part r.policy.max_source_bytes + 3
unfolding redact
redact-bounded r content open_mode some_max = ground (
  arith,
  str_eq_iff r.policy.mode "LOCAL_ONLY",
  truncate_step-bounded r (redact_paths_step r content (redact_secrets_step r content)),
)
