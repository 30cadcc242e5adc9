-- ===== src/Proto.antt =====
-- pkg/proto: the hash slot of a key, and the RESP codec.
pub mod Slot
pub mod Outcome
pub mod Int64
pub mod Value
pub mod Line
pub mod Parse
pub mod Encode
pub mod Scan
pub mod Request
pub mod Command
pub mod Reader
