-- ===== src/Task.antt =====
-- The working memory of tasks (internal/services/tasks.go).
pub mod Types
pub mod Result
pub mod Action
pub mod Repo
pub mod Stages
pub mod Hypotheses
pub mod Fields
pub mod Service
pub mod Validation
pub mod Steps
pub mod Inversion
pub mod Staged
pub mod History
pub mod Chain
pub mod Versions
pub mod Creation
pub mod Evidence
pub mod Promotion
pub mod Plan
pub mod Atomic
pub mod Facts
pub mod Tests
