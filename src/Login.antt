-- ===== src/Login.antt =====
-- The limiter of login attempts and the sessions of the web admin in webauth.go.
pub mod Limiter
pub mod Sessions
pub mod States
pub mod Slots
pub mod Outcomes
pub mod Histories
pub mod Locking
pub mod Admission
pub mod Delay
pub mod Born
pub mod Expiry
pub mod Room
mod SessionTests
mod Tests
