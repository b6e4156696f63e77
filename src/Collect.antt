-- ===== src/Collect.antt =====
-- plugin/src/GhidraConnection.cpp, `collectCheckinChanges`: the view against the baseline.
pub mod Symbols
pub mod Comments
pub mod Types
pub mod Variables
pub mod Bookmarks
pub mod Signatures
pub mod Equates
pub mod Preview
