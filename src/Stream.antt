-- ===== src/Stream.antt =====
-- The stream of stream/ to the dashboards.
pub mod SseBroker
