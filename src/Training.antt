-- ===== src/Training.antt =====
-- training/ignis_training: the split of the records into partitions, and its check.
pub mod Split
pub mod Check
pub mod Grouping
pub mod Sound
mod Examples
