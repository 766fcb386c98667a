-- ===== src/Leases.antt =====
-- packages/hexaqueue_core/src/hexaqueue_core/domain/lease.py and
-- packages/hexaqueue_server/src/hexaqueue_server/domain/lease_coordinator.py: test slices, their
-- leases, and the coordinator that hands them to workers and collects their reports.
pub mod Model
pub mod Coordinator
pub mod Reports
pub mod Accounted
pub mod Accounting
pub mod Reclaim
pub mod Renewal
pub mod Sessions
pub mod Identity
pub mod Examples
