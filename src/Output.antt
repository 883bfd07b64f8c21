-- ===== src/Output.antt =====
-- The output of AI sessions: the rings and their readers of ai_session.go.
pub mod Bytes
pub mod Ring
pub mod Refine
pub mod Reads
pub mod Shrink
pub mod Runs
pub mod Reader
pub mod Accounts
pub mod Stuck
pub mod Stream
pub mod Audit
pub mod Plain
pub mod Chunks
mod Tests
