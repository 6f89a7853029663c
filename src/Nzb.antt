-- ===== src/Nzb.antt =====
-- crates/bergamot-nzb: reading NZB files.
pub mod Model
pub mod Names
pub mod Subject
pub mod Parser
pub mod Ensures
pub mod Ends
pub mod Info
mod Tests
