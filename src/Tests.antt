-- ===== src/Tests.antt =====
-- The theorems at work on small programs: the data, and one use of each theorem.
pub mod Data
mod Syncs
mod Texts
pub mod Wire
mod Client
pub mod Views
mod Imports
mod Connections
