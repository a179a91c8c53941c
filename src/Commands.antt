-- ===== src/Commands.antt =====
-- The graph commands of packages/cli/src/commands: what each computes between reading the store
-- and printing.
pub mod Coupled
pub mod Relevant
pub mod Check
mod Tests
