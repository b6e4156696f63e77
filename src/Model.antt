-- ===== src/Model.antt =====
-- The data that the plugin moves between Ghidra and Binary Ninja
-- (plugin/include/GhidraConnection.h, plugin/include/SyncEngine.h).
pub mod Export
pub mod Preview
pub mod Baseline
pub mod View
