-- ===== src/Task/Repo.antt =====
-- What the task service asks of the rest of the program: the graph repository (internal/graph),
-- the reference resolver (internal/services/refs.go), the evidence service
-- (internal/services/evidence.go), git, and the JSON codec. An operation that writes returns the
-- new state of the world.
use code_rag.Common.{String, Bool, Option}
use code_rag.Task.Types.{Float64, TaskState}

pub data RefStatus : Type 0 where
  valid stale invalid : RefStatus

-- A graph node, as far as this service reads it.
pub record NodeInfo : Type 0 where
  pub kind : String
  pub project_id : String

pub record Repo : Type 1 where
  pub World : Type 0
  pub Blob : Type 0
  pub get_node : World → String → Option NodeInfo
  pub project_exists : World → String → Bool
  pub find_task : World → String → String → Option Blob
  pub upsert_task : World → TaskState → Blob → Option World
  pub marshal : TaskState → Blob
  pub unmarshal : Blob → Option TaskState
  pub resolve : World → String → String → RefStatus
  pub lookup : World → String → String → Option String
  pub record_hypothesis :
      World → String → String → String → Float64 → String → World × Option String
  pub head_revision : World → String → String
