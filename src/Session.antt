-- ===== src/Session.antt =====
-- The lines of AI sessions: ai_session_approval.go.
pub mod Line
pub mod Names
pub mod Scan
pub mod Classify
pub mod Gate
pub mod Moves
pub mod Delivery
pub mod Taint
pub mod Raises
pub mod Settings
mod Tests
mod LineTests
