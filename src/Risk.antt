-- ===== src/Risk.antt =====
-- The risk classifier of risk.go: Level, Words, Wrappers, Commands, Segment and Command model it,
-- the other modules prove.
pub mod Level
pub mod Words
pub mod Wrappers
pub mod Commands
pub mod Segment
pub mod Command
pub mod Wrapping
pub mod Rounds
pub mod Usage
pub mod Taken
pub mod Clusters
pub mod Peeling
pub mod Wrapped
pub mod Combination
pub mod Separators
mod Tests
