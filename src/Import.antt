-- ===== src/Import.antt =====
-- `SyncEngine::applyToView` of plugin/src/SyncEngine.cpp: an import that changes a view.
pub mod Api
pub mod TypeNames
pub mod Progress
pub mod Blocks
pub mod Symbols
pub mod Comments
pub mod Marks
pub mod Variables
pub mod Types
pub mod Apply
pub mod Maps
pub mod Tally
pub mod Counts
pub mod Stable
pub mod Steps
pub mod Kept
