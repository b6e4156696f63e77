-- ===== src/Checkin.antt =====
-- plugin/src/GhidraConnection.cpp, the write-back: the baseline that an import leaves, and its
-- update after a check-in.
pub mod Request
pub mod Store
pub mod Update
pub mod Frame
pub mod Converge
