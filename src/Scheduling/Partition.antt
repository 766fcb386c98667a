-- ===== src/Scheduling/Partition.antt =====
-- scheduling.py: where the pending jobs of a cycle go.
pub mod Parts
pub mod Backfill
pub mod Preempt
pub mod Whole
