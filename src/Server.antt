-- ===== src/Server.antt =====
-- crates/bergamot-server: who may call the server.
pub mod Access
