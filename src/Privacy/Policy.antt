-- ===== src/Privacy/Policy.antt =====
-- types.go and policy.go. Modes are Go strings; identifiers, paths and literals are byte lists.
use code_rag.Common.{
  ℕ, String, Bool, true, false, Option, none, some, List, [], ◌∷◌, ◌||◌, ◌&&◌, not, ℤ, pos, str_eq,
  ltb_ℤ, map, codes, ◌==◌, ◌+◌, if◌then◌else◌,
}
use code_rag.Privacy.Bytes.{Bytes, bytes_eq, has_prefix, between, ascii}

-- the disclosure levels, from none (0) to unrestricted (5); a mode without an entry has level 0
unfoldable pub mode_disclosure : String → ℕ
mode_disclosure mode =
    if str_eq mode "FULL"
    then 5
    else if str_eq mode "MINIMAL"
    then 3
    else if str_eq mode "MASKED"
    then 2
    else if str_eq mode "STRUCTURAL"
    then 1
    else if str_eq mode "ABSTRACT"
    then 2
    else 0

-- a mode without an entry has the empty risk
unfoldable pub mode_reconstruction_risk : String → String
mode_reconstruction_risk mode =
    if str_eq mode "FULL"
    then "HIGH"
    else if str_eq mode "MINIMAL"
    then "MEDIUM"
    else if str_eq mode "MASKED"
    then "MEDIUM"
    else if str_eq mode "STRUCTURAL"
    then "LOW"
    else if str_eq mode "ABSTRACT"
    then "MEDIUM"
    else if str_eq mode "LOCAL_ONLY"
    then "LOW"
    else ""

-- unicode.ToLower, up to letters outside ASCII: those whose lower case is in ASCII are U+0130 and U+212A
unfoldable pub to_lower : ℕ → ℕ
to_lower c =
    if between 65 c 90 then c + 32 else if c == 304 then 105 else if c == 8490 then 107 else c

-- strings.ToLower(s) == t, for a literal t
unfoldable pub lowers_to : String → String → Bool
lowers_to s t = bytes_eq (map to_lower (codes s)) (ascii t)

unfoldable pub parse_mode : String → Option String
parse_mode s =
    if lowers_to s "" || lowers_to s "full"
    then some "FULL"
    else if lowers_to s "minimal"
    then some "MINIMAL"
    else if lowers_to s "masked"
    then some "MASKED"
    else if lowers_to s "structural"
    then some "STRUCTURAL"
    else if lowers_to s "abstract"
    then some "ABSTRACT"
    else if lowers_to s "local_only" || lowers_to s "local-only" || lowers_to s "localonly"
    then some "LOCAL_ONLY"
    else none

pub record ProviderPolicy : Type 0 where
  pub name : String
  pub max_tokens : ℤ
  pub allowed_modes : List String
  pub requires_sanitization : Bool

pub record PrivacyPolicy : Type 0 where
  pub project_id : String
  pub mode : String
  pub allowed_identifiers : List Bytes
  pub forbidden_identifiers : List Bytes
  pub allowed_paths : List Bytes
  pub forbidden_paths : List Bytes
  pub allowed_literals : List Bytes
  pub forbidden_literals : List Bytes
  pub allow_comments : Bool
  pub allow_git_history : Bool
  pub allow_strings : Bool
  pub allow_binary_strings : Bool
  pub allow_exact_source : Bool
  pub max_source_bytes : ℤ
  pub max_context_tokens : ℤ
  pub reconstruction_risk : String
  pub provider_policy : Option ProviderPolicy
  pub created_at : String
  pub updated_at : String

unfoldable pub default_policy : String → String → PrivacyPolicy
default_policy project_id now = record {
  project_id = project_id;
  mode = "FULL";
  allowed_identifiers = [];
  forbidden_identifiers = [];
  allowed_paths = [];
  forbidden_paths = [];
  allowed_literals = [];
  forbidden_literals = [];
  allow_comments = false;
  allow_git_history = false;
  allow_strings = false;
  allow_binary_strings = false;
  allow_exact_source = false;
  max_source_bytes = pos 512;
  max_context_tokens = pos 4096;
  reconstruction_risk = "HIGH";
  provider_policy = none;
  created_at = now;
  updated_at = now;
}

-- whether Validate returns no error
unfoldable pub validate : PrivacyPolicy → Bool
validate p = elim (parse_mode p.mode) [
  | none ↦ false
  | some mode ↦ not (ltb_ℤ p.max_source_bytes (pos 0)) && not (ltb_ℤ p.max_context_tokens (pos 0))
]

unfoldable pub allows_source : PrivacyPolicy → Bool
allows_source p = p.allow_exact_source && not (str_eq p.mode "LOCAL_ONLY")

unfoldable pub allows_strings : PrivacyPolicy → Bool
allows_strings p = p.allow_strings && not (str_eq p.mode "LOCAL_ONLY")

-- the loop that looks for an equal entry
unfoldable pub has_entry : List Bytes → Bytes → Bool
has_entry [] id = false
has_entry (a ∷ rest) id = if bytes_eq a id then true else has_entry rest id

-- the loop that looks for a prefix
unfoldable pub has_prefix_entry : List Bytes → Bytes → Bool
has_prefix_entry [] path = false
has_prefix_entry (a ∷ rest) path = if has_prefix path a then true else has_prefix_entry rest path

unfoldable pub is_identifier_allowed : PrivacyPolicy → Bytes → Bool
is_identifier_allowed p = has_entry p.allowed_identifiers

unfoldable pub is_identifier_forbidden : PrivacyPolicy → Bytes → Bool
is_identifier_forbidden p = has_entry p.forbidden_identifiers

unfoldable pub is_path_allowed : PrivacyPolicy → Bytes → Bool
is_path_allowed p = has_prefix_entry p.allowed_paths

unfoldable pub is_path_forbidden : PrivacyPolicy → Bytes → Bool
is_path_forbidden p = has_prefix_entry p.forbidden_paths

unfoldable pub is_literal_allowed : PrivacyPolicy → Bytes → Bool
is_literal_allowed p = has_entry p.allowed_literals

unfoldable pub is_literal_forbidden : PrivacyPolicy → Bytes → Bool
is_literal_forbidden p = has_entry p.forbidden_literals

unfoldable pub disclosure : PrivacyPolicy → ℕ
disclosure p = mode_disclosure p.mode

unfoldable pub risk : PrivacyPolicy → String
risk p =
    if not (str_eq p.reconstruction_risk "")
    then p.reconstruction_risk
    else mode_reconstruction_risk p.mode
