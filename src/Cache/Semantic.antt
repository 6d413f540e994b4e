-- ===== src/Cache/Semantic.antt =====
-- The semantic level of the cache (internal/cache/semantic.go). Texts are cut after strings.ToLower;
-- the roundings of float64 are parameters. Entries of equal score stay in their order in the sort.
use Prim.Native.Char.{code}
use code_rag.Common.{
  ℕ, ◌+◌, ◌-◌, ◌*◌, ◌^◌, ℤ, pos, pos_part, ltb_ℤ, leb, ltb, ◌==◌, String, Bool, not, Option, none,
  some, List, [], ◌∷◌, ◌++◌, ◌&&◌, ◌||◌, str_eq, str_mem, codes, length, drop, map, sort_by,
  str_ltb, if◌then◌else◌,
}
use code_rag.Graph.Types.{Values}
use code_rag.Cache.Types.{CacheEntry, SemanticConfig}

-- strings.ToLower, and float64: sums, products, quotients and roots, rounded.
pub record Arithmetic : Type 0 where
  pub to_lower : String → String
  pub add : ℤ → ℤ → ℤ
  pub mul : ℤ → ℤ → ℤ
  pub div : ℤ → ℤ → ℤ
  pub sqrt : ℤ → ℤ

unfoldable pub is_word_char : ℕ → Bool
is_word_char r = (leb 97 r && leb r 122) || (leb 48 r && leb r 57) || r == 95

unfoldable pub add_token : String → List String → List String
add_token w ws = if str_eq w "" then ws else w ∷ ws

-- strings.FieldsFunc: the word that the text starts with, which may be empty, and the words after it
unfoldable pub split_fields : String → String × List String
split_fields String.[] = ("", [])
split_fields (String.◌∷◌ c s) =
    let (w, ws) = split_fields s in
    if is_word_char (code c) then (String.◌∷◌ c w, ws) else ("", add_token w ws)

abbrev stopwords : List String
stopwords =
    "the" ∷ "a" ∷ "an" ∷ "of" ∷ "to" ∷ "in" ∷ "for" ∷ "on" ∷ "with" ∷ "at" ∷ "by" ∷ "from" ∷ "is"
    ∷ "are" ∷ "was" ∷ "were" ∷ "this" ∷ "that" ∷ "these" ∷ "those" ∷ "and" ∷ "or" ∷ "but" ∷ "what"
    ∷ "which" ∷ "how" ∷ "why" ∷ "when" ∷ "where" ∷ "who" ∷ "whom" ∷ "whose" ∷ "does" ∷ "do" ∷ "did"
    ∷ "has" ∷ "have" ∷ "had" ∷ "be" ∷ "been" ∷ "being" ∷ "show" ∷ "get" ∷ "find" ∷ "list" ∷ "give"
    ∷ "tell" ∷ "explain" ∷ "describe" ∷ []

unfoldable pub keep_tokens : List String → List String
keep_tokens [] = []
keep_tokens (f ∷ fields) =
    let rest = keep_tokens fields in
    if ltb 2 (length (codes f)) && not (str_mem f stopwords) then f ∷ rest else rest

-- vocab[t]++
unfoldable pub count_token : String → List (String × ℕ) → List (String × ℕ)
count_token t [] = (t, 1) ∷ []
count_token t ((s, n) ∷ vocab) =
    if str_eq s t then (s, n + 1) ∷ vocab else (s, n) ∷ count_token t vocab

unfoldable pub count_tokens : List String → List (String × ℕ) → List (String × ℕ)
count_tokens [] vocab = vocab
count_tokens (t ∷ tokens) vocab = count_tokens tokens (count_token t vocab)

unfoldable pub sum_squares : List (String × ℕ) → ℕ
sum_squares [] = 0
sum_squares ((t, n) ∷ vocab) = n * n + sum_squares vocab

abbrev float_of : ℕ → ℤ
float_of n = pos (n * 2 ^ 1074)

abbrev token_before : String × ℕ → String × ℕ → Bool
token_before a b = str_ltb a.0 b.0

abbrev is_zero : ℤ → Bool
is_zero x = not (ltb_ℤ x (pos 0)) && not (ltb_ℤ (pos 0) x)

module _ (F : Arithmetic) where
  unfoldable pub tokenize : String → List String
  tokenize s = let (w, ws) = split_fields (F.to_lower s) in keep_tokens (add_token w ws)

  -- the counts are small enough for their squares to add up without rounding
  unfoldable pub embed_query : String → List ℤ
  embed_query query =
      let vocab = count_tokens (tokenize query) [] in
      let mag = F.sqrt (float_of (sum_squares vocab)) in
      if is_zero mag then [] else map (λ e. F.div (float_of e.1) mag) (sort_by token_before vocab)

  unfoldable pub sum_of_squares : ℤ → List ℤ → ℤ
  sum_of_squares acc [] = acc
  sum_of_squares acc (v ∷ vs) = sum_of_squares (F.add acc (F.mul v v)) vs

  unfoldable pub dot_product : ℤ → List ℤ → List ℤ → ℤ
  dot_product acc [] bs = acc
  dot_product acc (a ∷ as_) [] = acc
  dot_product acc (a ∷ as_) (b ∷ bs) = dot_product (F.add acc (F.mul a b)) as_ bs

  unfoldable pub cosine_similarity : List ℤ → List ℤ → ℤ
  cosine_similarity as_ bs =
      let mag_a = sum_of_squares (pos 0) as_ in
      let mag_b = sum_of_squares (pos 0) bs in
      if length as_ == 0 || length bs == 0 || is_zero mag_a || is_zero mag_b
      then pos 0
      else F.div (dot_product (pos 0) as_ bs) (F.mul (F.sqrt mag_a) (F.sqrt mag_b))

  module _ (V : Values) where
    pub record SemanticCache : Type 0 where
      pub entries : List (CacheEntry V)
      pub config : SemanticConfig

    unfoldable pub new_semantic_cache : SemanticConfig → SemanticCache
    new_semantic_cache cfg = record {
      entries = [];
      config =
          if ltb_ℤ (pos 0) cfg.max_entries then cfg else record cfg { max_entries = pos 10000 };
    }

    -- entry.Embedding, computed where it is nil
    unfoldable pub embedded : CacheEntry V → String → CacheEntry V
    embedded entry query = elim (entry.embedding) [
      | none ↦ record entry { embedding = some (embed_query query) }
      | some _ ↦ entry
    ]

    unfoldable pub index : Option (CacheEntry V) → String → SemanticCache → SemanticCache
    index none query s = s
    index (some entry) query s =
        let entries = s.entries ++ embedded entry query ∷ [] in
        let excess = length entries - pos_part s.config.max_entries in
        if s.config.enabled then record s { entries = drop excess entries } else s

    -- the tests of the loop, up to the similarity
    unfoldable pub is_candidate : String → String → String → String → CacheEntry V → Bool
    is_candidate project repo commit binary e =
        str_eq e.project_id project
        && (str_eq e.repository_id "" || str_eq e.repository_id repo)
        && (str_eq e.git_commit "" || str_eq e.git_commit commit)
        && (str_eq e.binary_hash "" || str_eq e.binary_hash binary)

    unfoldable pub score_entries :
        ℤ → List ℤ → (CacheEntry V → Bool) → List (CacheEntry V) → List (CacheEntry V × ℤ)
    score_entries threshold target candidate [] = []
    score_entries threshold target candidate (e ∷ entries) =
        let rest = score_entries threshold target candidate entries in
        if candidate e
        then elim (e.embedding) [
          | none ↦ rest
          | some [] ↦ rest
          | some (x ∷ xs) ↦
              let sim = cosine_similarity target (x ∷ xs) in
              if not (ltb_ℤ sim threshold) then (e, sim) ∷ rest else rest
        ]
        else rest

    abbrev pub higher : CacheEntry V × ℤ → CacheEntry V × ℤ → Bool
    higher a b = ltb_ℤ b.1 a.1

    unfoldable pub search :
        String → String → String → String → String → SemanticCache → Option (CacheEntry V)
    search query project repo commit binary s =
        let results =
          score_entries s.config.threshold (embed_query query)
            (is_candidate project repo commit binary) s.entries in
        if s.config.enabled
        then elim (sort_by higher results) [ [] ↦ none | (e, score) ∷ _ ↦ some e ]
        else none

    unfoldable pub clear : SemanticCache → SemanticCache
    clear s = record s { entries = [] }
