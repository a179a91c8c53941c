-- ===== src/Audit.antt =====
-- The audit commands of packages/cli/src/commands.
pub mod Score
pub mod GraphWalk
pub mod Changed
mod Tests
