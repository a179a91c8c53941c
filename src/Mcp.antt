-- ===== src/Mcp.antt =====
-- The HTTP server of packages/cli/src/mcp.
pub mod Guard
