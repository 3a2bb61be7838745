-- ===== src/Tracing.antt =====
-- util/analysis/csi-tracing: from captured packets to the calls of a storage driver.
pub mod Types
pub mod Messages
pub mod Tables
pub mod Calls
pub mod Streams
pub mod Packets
pub mod Logs
