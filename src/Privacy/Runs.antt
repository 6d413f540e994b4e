-- ===== src/Privacy/Runs.antt =====
-- A run of the privacy service over the repository in memory.
use Prim.Native.Char.{code}
use code_rag.Common.{
  ℕ, zero, suc, String, Bool, true, false, none, some, List, [], ◌∷◌, ◌++◌, ◌≡◌, refl, subst, ◌==◌,
  length, take, drop, get_or, if◌then◌else◌, arith,
}
use code_rag.Graph.Types.{
  validate_kind, property, find_property, set_default, put_properties, set_property,
}
use code_rag.Graph.Any.{texts, texts-ValueLaws}
use code_rag.Graph.Repository.{GraphRepository}
use code_rag.Graph.Memory.{memory_repository, memory_upsert, memory_repository-RepositoryLaws}
use code_rag.Cache.Types.{Host, default_config}
use code_rag.Cache.Lookups.{no_stats}
use code_rag.Graph.Nodes.{
  upsert_node, upsert_one, find_nodes, sort_by_id, filter_nodes, counted, new_properties,
}
use code_rag.Privacy.Bytes.{Bytes, bytes_eq}
use code_rag.Privacy.Policy.{default_policy, validate, parse_mode, lowers_to, to_lower}
use code_rag.Privacy.Pseudonymizer.{
  Pseudonymizer, pseudonymize, find, token_of, decimal, decimal_from, counter,
}
use code_rag.Privacy.Service.{
  Codec, PrivacyState, PrivacyService, state, find_state, load_graph, persist, persist_texts,
  pseudonymize_name,
}
use code_rag.Privacy.Restart.{IsReadable, SameTable, next_state, restarted, pseudonymize-restarted}

-- A codec that can be run: the maps of a table, each key once with its newest value, as counted lists
-- of numbers, and a number as so many ones and a comma.
without {ℓ} : {A : Type ℓ} → Bytes → List (Bytes × A) → List (Bytes × A)
without key [] = []
without key ((k, v) ∷ entries) =
    let rest = without key entries in if bytes_eq k key then rest else (k, v) ∷ rest

distinct {ℓ} : {A : Type ℓ} → List (Bytes × A) → List (Bytes × A)
unfolding without
distinct [] = []
distinct ((k, v) ∷ entries) = (k, v) ∷ without k (distinct entries)

add_bytes : Bytes → List ℕ → List ℕ
add_bytes b rest = length b ∷ b ++ rest

add_pairs : List (Bytes × Bytes) → List ℕ → List ℕ
unfolding add_bytes
add_pairs [] rest = rest
add_pairs ((k, v) ∷ entries) rest = add_bytes k (add_bytes v (add_pairs entries rest))

add_counters : List (Bytes × ℕ) → List ℕ → List ℕ
unfolding add_bytes
add_counters [] rest = rest
add_counters ((k, n) ∷ entries) rest = add_bytes k (n ∷ add_counters entries rest)

numbers : Pseudonymizer → List ℕ
unfolding distinct add_pairs add_counters
numbers p =
    let names = distinct p.name_to_token in
    let tokens = distinct p.token_to_name in
    let counters = distinct p.counters in
    length names
    ∷ add_pairs names
        (length tokens ∷ add_pairs tokens (length counters ∷ add_counters counters []))

take_bytes : List ℕ → Bytes × List ℕ
take_bytes [] = ([], [])
take_bytes (n ∷ ns) = (take n ns, drop n ns)

take_pairs : ℕ → List ℕ → List (Bytes × Bytes) × List ℕ
unfolding take_bytes
take_pairs zero ns = ([], ns)
take_pairs (suc count) ns =
    let (k, ns1) = take_bytes ns in
    let (v, ns2) = take_bytes ns1 in
    let (entries, rest) = take_pairs count ns2 in ((k, v) ∷ entries, rest)

take_counters : ℕ → List ℕ → List (Bytes × ℕ)
unfolding take_bytes
take_counters zero ns = []
take_counters (suc count) ns =
    let (k, ns1) = take_bytes ns in (k, get_or ns1 0 0) ∷ take_counters count (drop 1 ns1)

table_of : List ℕ → Pseudonymizer
unfolding take_pairs take_counters
table_of ns =
    let (names, ns1) = take_pairs (get_or ns 0 0) (drop 1 ns) in
    let (tokens, ns2) = take_pairs (get_or ns1 0 0) (drop 1 ns1) in
    record {
      name_to_token = names;
      token_to_name = tokens;
      counters = take_counters (get_or ns2 0 0) (drop 1 ns2);
    }

ones : ℕ → String → String
ones zero s = String.◌∷◌ "," s
ones (suc n) s = String.◌∷◌ "1" (ones n s)

written : List ℕ → String
unfolding ones
written [] = ""
written (n ∷ ns) = ones n (written ns)

one_more : List ℕ → List ℕ
one_more [] = []
one_more (n ∷ ns) = suc n ∷ ns

read_back : String → List ℕ
unfolding one_more
read_back String.[] = []
read_back (String.◌∷◌ c s) = if code c == b',' then 0 ∷ read_back s else one_more (read_back s)

abbrev codec : Codec
codec = record {
  marshal_policy = λ p. some p.mode;
  unmarshal_policy = λ s. some (record (default_policy "p" "now") { mode = s });
  marshal_snapshot = λ p. some (written (numbers p));
  unmarshal_snapshot = λ s. some (table_of (read_back s));
}

abbrev first : Bytes
first = 97 ∷ []

abbrev name : Bytes
name = 109 ∷ 97 ∷ []

abbrev kind : Bytes
kind = 70 ∷ []

abbrev token : Bytes
token = 70 ∷ 95 ∷ 50 ∷ []

-- One name of the kind is known.
abbrev known_state : PrivacyState
known_state = record {
  policy = default_policy "p" "now";
  pseudos = record {
    name_to_token = (first, 70 ∷ 95 ∷ 49 ∷ []) ∷ [];
    token_to_name = (70 ∷ 95 ∷ 49 ∷ [], first) ∷ [];
    counters = (kind, 1) ∷ [];
  };
}

abbrev host : Host texts
host = record {
  Time = ℕ;
  sha256_hex = λ s. s;
  marshal = λ v. "";
  as_floats = λ v. none;
  parse_time = λ s. none;
  since_exceeds = λ now t k. false;
}

abbrev repository : GraphRepository texts
repository = memory_repository texts (λ k. "n1") (λ k. "2026")

abbrev service : PrivacyService codec texts host repository
service = record {
  cache = record {
    graph = (record { nodes = []; edges = []; generation = 0 }, 0);
    config = default_config;
    stats = no_stats texts host repository;
    exact_count = 0;
  };
  has_graph = true;
  has_cache = false;
  states = ("p", known_state) ∷ [];
}

abbrev run : (Bytes × Bool) × PrivacyService codec texts host repository
run = pseudonymize_name codec texts host repository "p" name kind "now" service

abbrev served : PrivacyService codec texts host repository
served = run.1

token_runs : run.0.0 ≡ token
unfolding pseudonymize_name pseudonymize state find_state find token_of decimal decimal_from counter
    load_graph find_nodes sort_by_id filter_nodes bytes_eq
token_runs = refl

kept_runs : run.0.1 ≡ true
unfolding pseudonymize_name persist persist_texts memory_upsert upsert_node validate_kind upsert_one
    find_nodes sort_by_id filter_nodes counted state find_state load_graph property find_property
    new_properties set_default put_properties set_property
kept_runs = refl

pseudonymize_runs : run ≡ ((token, true), served)
pseudonymize_runs = λ i. ((token_runs i, kept_runs i), served)

abbrev next_persisted : PrivacyState
next_persisted = next_state codec texts host repository name kind known_state

-- What the codec reads back: the counter of the kind once.
abbrev read_table : Pseudonymizer
read_table = table_of (read_back (written (numbers next_persisted.pseudos)))

read_table_runs : read_table ≡ record {
  name_to_token = (name, token) ∷ (first, 70 ∷ 95 ∷ 49 ∷ []) ∷ [];
  token_to_name = (token, name) ∷ (70 ∷ 95 ∷ 49 ∷ [], first) ∷ [];
  counters = (kind, 2) ∷ [];
}
unfolding pseudonymize find token_of counter decimal decimal_from bytes_eq table_of take_pairs
    take_counters take_bytes read_back one_more written ones numbers add_pairs add_counters
    add_bytes distinct without
read_table_runs = refl

read_table-SameTable : SameTable read_table next_persisted.pseudos
unfolding pseudonymize find token_of counter decimal decimal_from bytes_eq
read_table-SameTable = rw read_table_runs (λ n. refl, λ t. refl, λ k. ground arith)

service_reads : IsReadable codec texts host repository "p" (
    next_state codec texts host repository name kind
      (state codec texts host repository "p" "now" service).0)
unfolding state find_state default_policy validate parse_mode lowers_to to_lower bytes_eq
service_reads = (
  λ json e.
      let q : "FULL" ≡ json = cc in
      subst (λ j. codec.unmarshal_policy j ≡ some next_persisted.policy) q refl,
  λ json e.
      let q : written (numbers next_persisted.pseudos) ≡ json = cc in
      (
        table_of (read_back json),
        refl,
        subst (λ j. SameTable (table_of (read_back j)) next_persisted.pseudos) q
            read_table-SameTable,
      ),
  refl,
  refl,
)

pseudonymize-restarted_example :
    let after =
      (state codec texts host repository "p" "later"
        (restarted codec texts host repository served)).0 in
    let before =
      next_state codec texts host repository name kind
        (state codec texts host repository "p" "now" service).0 in
    (after.policy ≡ before.policy)
    × SameTable after.pseudos before.pseudos
    × ((pseudonymize name kind after.pseudos).0 ≡ token)
    × ((other k : Bytes)
        → (pseudonymize other k after.pseudos).0 ≡ (pseudonymize other k before.pseudos).0)
pseudonymize-restarted_example =
    let (W, good) = memory_repository-RepositoryLaws texts (λ k. "n1") (λ k. "2026") in
    pseudonymize-restarted codec texts host repository "p" "now" "later" name kind token service
      served texts-ValueLaws W refl refl ((good service.cache.graph).1 tt) service_reads
      pseudonymize_runs
