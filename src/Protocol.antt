-- ===== src/Protocol.antt =====
-- src/common/protocol.h: the control messages, their writer and their reader.
pub mod Bytes
pub mod Result
pub mod Writer
pub mod Reader
pub mod Messages
pub mod Compressed
pub mod Samples
pub mod Reads
pub mod RoundTrip
mod Tests
