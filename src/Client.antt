-- ===== src/Client.antt =====
-- plugin/src/BridgeClient.cpp: lines of JSON over a socket.
pub mod Framing
pub mod Requests
pub mod Sync
pub mod Loop
