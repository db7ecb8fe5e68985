-- ===== src/Wire.antt =====
-- backend/app/protocol.py: the framed TCP protocol between a device and the backend.
pub mod Bytes
pub mod Packet
pub mod Parser
pub mod Rounds
pub mod Stream
pub mod Chunks
pub mod RoundTrip
pub mod Bounds
pub mod SmallChunks
pub mod Within
pub mod Frame
mod Examples
