-- ===== src/Simulator.antt =====
-- simulator/ignis_simulator: what a laptop sends in place of the device.
pub mod Scenarios
pub mod Fragments
