-- ===== src/Import/Kept.antt =====
-- What an import keeps of a view and what it makes, under what the API documents of its calls.
pub mod Comments
pub mod Names
pub mod Functions
pub mod Duplicates
pub mod Baseline
