-- ===== src/Render.antt =====
-- The views of packages/render/src: the graph folded to packages or directories, one package in
-- focus, barrels dissolved, and the union of two snapshots.
pub mod Collapse
pub mod Packages
pub mod Directories
pub mod Focus
pub mod Barrels
pub mod Diff
pub mod Snapshots
mod Tests
