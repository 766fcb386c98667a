-- ===== src/Scheduling.antt =====
-- packages/hexaqueue_core/src/hexaqueue_core/domain/scheduling.py and priority.py: the slot pool,
-- the priority ranking, preemption, backfilling, and the scheduling cycle that joins them.
pub mod Pool
pub mod Priority
pub mod Preemption
pub mod Backfill
pub mod Engine
pub mod Cycle
pub mod Conservation
pub mod Ranking
pub mod Cases
pub mod Partition
pub mod Selection
pub mod Victims
pub mod Window
pub mod Examples
