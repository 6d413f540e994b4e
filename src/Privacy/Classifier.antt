-- ===== src/Privacy/Classifier.antt =====
-- classifier.go. A compiled regular expression is what the package regexp does with it.
use code_rag.Common.{
  String, Bool, true, false, none, some, List, [], ◌∷◌, ◌++◌, ◌||◌, ◌&&◌, leb, length, get_elem?,
  if◌then◌else◌,
}
use code_rag.Privacy.Bytes.{Bytes, ascii, has_prefix, has_suffix, contains, trim_space}

pub record Regexp : Type 0 where
  pub match_string : Bytes → Bool
  pub replace_all_string_func : Bytes → (Bytes → Bytes) → Bytes
  pub find_string_submatch : Bytes → List Bytes
  pub replace_all_string : Bytes → Bytes → Bytes

pub record ContentClassifier : Type 0 where
  pub secret_patterns : List Regexp
  pub path_pattern : Regexp

unfoldable pub matches_any : List Regexp → Bytes → Bool
matches_any [] content = false
matches_any (p ∷ ps) content = if p.match_string content then true else matches_any ps content

unfoldable pub is_secret : ContentClassifier → Bytes → Bool
is_secret c = matches_any c.secret_patterns

unfoldable pub is_path : ContentClassifier → Bytes → Bool
is_path c content = c.path_pattern.match_string content

unfoldable pub is_comment : Bytes → Bool
is_comment content =
    let trimmed = trim_space content in
    has_prefix trimmed (ascii "//")
    || has_prefix trimmed (ascii "#")
    || has_prefix trimmed (ascii "*")
    || has_prefix trimmed (ascii "/*")
    || has_prefix trimmed (ascii "--")
    || has_prefix trimmed (ascii ";")

abbrev is_quoted : Bytes → Bytes → Bool
is_quoted quote trimmed =
    has_prefix trimmed quote && has_suffix trimmed quote && leb 2 (length trimmed)

unfoldable pub is_string_literal : Bytes → Bool
is_string_literal content =
    let trimmed = trim_space content in
    is_quoted (ascii "\"") trimmed || is_quoted (ascii "'") trimmed || is_quoted (ascii "`") trimmed

unfoldable pub classify_content : ContentClassifier → Bytes → String
classify_content c content =
    if is_secret c content
    then "literal"
    else if is_path c content
    then "path"
    else if is_comment content
    then "comment"
    else if is_string_literal content
    then "string"
    else "source"

-- what replaces a match: its first group, if the pattern has one, and the marker
unfoldable pub redact_match : Regexp → Bytes → Bytes
redact_match p match = elim (get_elem? (p.find_string_submatch match) 1) [
  | some prefix ↦ prefix ++ ascii "***REDACTED***"
  | none ↦ ascii "***REDACTED***"
]

unfoldable pub redact_all : List Regexp → Bytes → Bytes
redact_all [] result = result
redact_all (p ∷ ps) result = redact_all ps (p.replace_all_string_func result (redact_match p))

unfoldable pub redact_secrets : ContentClassifier → Bytes → Bytes
redact_secrets c = redact_all c.secret_patterns

unfoldable pub classify_symbol : Bytes → String
classify_symbol name =
    let trimmed = trim_space name in
    let starts : String → Bool = λ s. has_prefix trimmed (ascii s) in
    if contains trimmed (ascii "::") || contains trimmed (ascii ".")
    then "MODULE"
    else if starts "type " || starts "struct " || starts "class " || starts "interface "
    then "TYPE"
    else if starts "func " || starts "fn " || starts "def " || starts "function "
    then "FUNC"
    else if starts "var " || starts "let " || starts "const " || starts "val "
    then "VAR"
    else if starts "field_" || starts "m_" || starts "s_" || starts "_"
    then "FIELD"
    else "UNKNOWN"
