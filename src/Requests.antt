-- ===== src/Requests.antt =====
-- The command requests: the approval queue of approval.go and app.go with its table in storage.go,
-- and the rule that lets an agent's command run without approval.
pub mod Request
pub mod Queue
pub mod Policy
pub mod Approval
pub mod Safety
pub mod Transitions
pub mod Bypass
pub mod Finish
pub mod Deletion
mod Tests
