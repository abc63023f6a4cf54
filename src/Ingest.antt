-- ===== src/Ingest.antt =====
-- The intake of ingest/.
pub mod Auth
pub mod ClockSkew
