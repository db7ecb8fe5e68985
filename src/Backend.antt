-- ===== src/Backend.antt =====
-- backend/app: what stands between the database, the devices and the outside world.
pub mod RateLimit
pub mod Destination
pub mod Settings
pub mod Environment
pub mod Dispatch
pub mod Registry
pub mod Session
pub mod Escalation
pub mod Http
pub mod Observations
pub mod Zones
pub mod Hub
mod Examples
