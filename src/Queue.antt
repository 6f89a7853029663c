-- ===== src/Queue.antt =====
-- crates/bergamot-queue and the data model of crates/bergamot-core that it works on.
pub mod Types
pub mod Nzb
pub mod Health
pub mod State
pub mod Complete
pub mod Download
pub mod Edit
pub mod Select
pub mod Slots
pub mod History
pub mod NewNzb
pub mod Ingest
pub mod Post
pub mod Listings
pub mod Commands
pub mod Loop
pub mod Tests
