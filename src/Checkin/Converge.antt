-- ===== src/Checkin/Converge.antt =====
-- What a check-in leaves for the preview behind it.
pub mod Renames
pub mod NewSymbols
pub mod Symbols
pub mod DataItems
pub mod Bookmarks
pub mod TypeIds
pub mod ItemSteps
pub mod BookmarkSteps
pub mod Comments
