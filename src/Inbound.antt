-- ===== src/Inbound.antt =====
-- The callbacks of inbound/.
pub mod Reconcile
pub mod Signatures
