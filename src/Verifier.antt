-- ===== src/Verifier.antt =====
-- poc/pi/ignis_poc/core.py: the gate between the model's detections and a confirmed fire.
pub mod Decimal
pub mod Gate
pub mod Window
pub mod Invariant
pub mod Confirm
pub mod Settings
pub mod Traces
pub mod Names
pub mod Held
pub mod Sustained
mod Examples
