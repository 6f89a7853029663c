-- ===== src/Nntp.antt =====
-- crates/bergamot-nntp: the client side of the NNTP protocol.
pub mod Response
pub mod Machine
pub mod Scheduler
pub mod Pool
mod Tests
