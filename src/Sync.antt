-- ===== src/Sync.antt =====
-- plugin/src/SyncEngine.cpp: what an import records for the later check-in.
pub mod Comments
pub mod Tags
pub mod Result
pub mod Writeback
