-- ===== src/Gate.antt =====
-- The door of the MCP listener: which HTTP requests reach the tools, and as which caller.
pub mod Guard
pub mod Handler
pub mod Admission
pub mod Seen
mod Tests
