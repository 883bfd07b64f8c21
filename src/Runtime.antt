-- ===== src/Runtime.antt =====
-- The in-process admission state of the MCP server: mcp_status.go.
pub mod Locks
pub mod Counts
pub mod Exclusion
mod Tests
