-- ===== src/Device.antt =====
-- poc/pi/ignis_poc: the device's side of the connection.
pub mod Stream
pub mod Ack
pub mod Detector
pub mod Edge
mod Examples
