-- ===== src/Db.antt =====
-- The ledger of db/: the chain of hashes over raw_events.
pub mod HashChain
