-- ===== src/Yenc.antt =====
-- crates/bergamot-yenc: decoding the bodies of articles.
pub mod Line
pub mod Fields
pub mod Decoder
pub mod Cache
mod Tests
