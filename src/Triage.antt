-- ===== src/Triage.antt =====
-- The audit's triage (packages/cli/src/commands/triage*.ts): a finding is selected, shown to a
-- reader together with planted controls, and the reader's verdicts are verified, scored and kept.
pub mod Questions
pub mod Select
pub mod Verify
pub mod Score
pub mod Persist
pub mod Excerpt
pub mod ControlPick
pub mod Run
pub mod Keys
mod Tests
