-- ===== src/Dashboard.antt =====
-- The data of the HTML dashboard (packages/cli/src/commands/dashboard-*.ts).
pub mod Report
pub mod Health
pub mod NodeMetrics
pub mod Context
pub mod Exports
pub mod Coupling
pub mod Payload
pub mod Windows
mod Tests
