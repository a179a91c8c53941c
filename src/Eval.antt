-- ===== src/Eval.antt =====
-- The evaluation suites of packages/cli/src/eval.
pub mod TaskType
pub mod Grader
pub mod Stratify
pub mod Gate
pub mod Imports
pub mod Hardness
pub mod Workspace
pub mod Reach
pub mod Localize
pub mod Screen
pub mod Impact
pub mod Json
pub mod Ledger
mod Tests
