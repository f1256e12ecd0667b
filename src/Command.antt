-- ===== src/Command.antt =====
-- cmd/agent and cmd/server: the two programs, with their flags.
pub mod Agent
pub mod Server
pub mod Shutdown
pub mod Jobs
pub mod Readable
pub mod Start
pub mod Arguments
mod Tests
