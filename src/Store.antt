-- ===== src/Store.antt =====
-- backend/app/database.py: the tables of the SQLite database, and the transactions on them.
pub mod Table
pub mod Schema
pub mod Devices
pub mod Incidents
pub mod Calls
pub mod Configuration
pub mod Examples
