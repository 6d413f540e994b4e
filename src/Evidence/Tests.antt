-- ===== src/Evidence/Tests.antt =====
-- Runs of the evidence service and the detector.
use code_rag.Common.{ℕ, pos, String, false, none, some, List, [], ◌∷◌, ◌≡◌, refl, itoa}
use code_rag.Graph.Types.{
  Properties, Node, MemoryGraph, property, find_property, set_default, put_properties, set_property,
  validate_kind,
}
use code_rag.Graph.Nodes.{
  upsert_node, upsert_one, find_nodes, sort_by_id, filter_nodes, counted, new_properties,
}
use code_rag.Graph.Any.{str, num, texts, texts-ValueLaws}
use code_rag.Graph.Repository.{GraphRepository}
use code_rag.Graph.Memory.{memory_repository, memory_upsert, memory_repository-RepositoryLaws}
use code_rag.Evidence.Records.{ok, service_error, present, record_hypothesis}
use code_rag.Evidence.Detector.{Clock, InterceptionResult, judge}
use code_rag.Evidence.Recorded.{identity, Refusal, IsConfidence, HasSubject, record_hypothesis_lem}

abbrev clock : Clock
clock = record {
  Time = ℕ;
  to_lower = λ s. s;
  parse_time = λ s. none;
  is_after = λ s t. false;
  seconds_before = λ n t. t;
}

abbrev claimed : Properties texts
claimed = ("claim", str "encrypts traffic") ∷ ("confidence", num (pos 1)) ∷ []

abbrev hypotheses : List (Properties texts)
hypotheses = claimed ∷ claimed ∷ claimed ∷ []

abbrev verdict : InterceptionResult
verdict = judge texts clock 0 hypotheses []

abbrev repository : GraphRepository texts
repository = memory_repository texts itoa (λ k. "2026")

abbrev World : Type 0
World = MemoryGraph texts × ℕ

abbrev start : World
start = (record { nodes = []; edges = []; generation = 0 }, 0)

abbrev project : Properties texts
project = ("project_id", str "p") ∷ []

-- A function of the project, with the identifier "0".
abbrev with_function : World
with_function = (memory_upsert texts itoa (λ k. "2026") "BinaryFunction" project [] start).1

abbrev subject : Node texts
subject = record {
  id = "0";
  kind = "BinaryFunction";
  properties = ("project_id", str "p") ∷ ("id", str "0") ∷ ("created_at", str "2026") ∷ [];
}

upsert_runs :
    memory_upsert texts itoa (λ k. "2026") "BinaryFunction" project [] start
    ≡ (some subject, with_function)
unfolding memory_upsert upsert_node validate_kind upsert_one find_nodes sort_by_id filter_nodes
    counted property find_property new_properties set_default put_properties set_property itoa
upsert_runs = refl

record_hypothesis_lem_example :
    let run = λ (w : World).
      record_hypothesis texts repository "p" "0" "encrypts traffic" (pos 1) [] "now" w in
    ((message : String) (w' : World)
      → run with_function ≡ (service_error message, w')
      → (w' ≡ with_function)
        × Refusal texts repository "p" "0" "encrypts traffic"
            (pos 1)
            []
            "now"
            with_function
            message)
    × ((shown : Properties texts) (w' : World)
        → run with_function ≡ (ok shown, w')
        → IsConfidence texts repository "p" "0" "encrypts traffic" (pos 1) [] "now"
          × HasSubject texts repository "p" "0" "encrypts traffic" (pos 1) [] "now" with_function
          × ((n : Node texts) × (rest : List (Node texts)) × (repository.find_nodes "Hypothesis"
                  (identity texts repository "p" "0" "encrypts traffic" (pos 1) [] "now")
                  w'
                ≡ some (n ∷ rest))
              × (shown ≡ present texts repository n)
              × (property texts n.properties "confidence" ≡ num (pos 1))))
record_hypothesis_lem_example =
    let (W, good) = memory_repository-RepositoryLaws texts itoa (λ k. "2026") in
    record_hypothesis_lem texts repository "p" "0" "encrypts traffic" (pos 1) [] "now"
      texts-ValueLaws W with_function
      (W.upsert-Good "BinaryFunction" project [] start with_function subject upsert_runs
        ((good start).1 tt))
