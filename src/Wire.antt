-- ===== src/Wire.antt =====
-- plugin/src/GhidraJson.cpp: the bridge's JSON answer as a database, and a preview as the body of
-- a request.
pub mod Library
pub mod Decode
pub mod Encode
pub mod Signatures
pub mod Routing
