-- ===== src/Process.antt =====
-- plugin/src/BridgeProcess.cpp: the Java process of a local bridge.
pub mod Command
pub mod Output
pub mod Posix
pub mod Windows
pub mod Descriptors
pub mod Lines
pub mod Handshake
