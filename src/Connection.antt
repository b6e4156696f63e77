-- ===== src/Connection.antt =====
-- plugin/src/GhidraConnection.cpp but for the write-back: the bridge's and the server's connection,
-- the operations on repositories, and events.
pub mod Records
pub mod Locate
pub mod Repository
pub mod Bridge
pub mod Server
pub mod Session
pub mod Outcome
pub mod Lost
pub mod Logged
