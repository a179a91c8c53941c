-- ===== src/Arch.antt =====
-- The architecture views of the graph commands.
pub mod Domains
pub mod Split
pub mod Evidence
mod Tests
