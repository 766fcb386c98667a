-- ===== src/Budget.antt =====
-- packages/hexaqueue_core/src/hexaqueue_core/domain/budget.py and adapters/budget/in_memory.py: credit
-- reservations, tenant accounts and the in-memory ledger. Credits are whole multiples of a smallest
-- unit, a millionth; an amount that a caller gives is an integer, since the code tests its sign.
pub mod Reservation
pub mod Ledger
pub mod Sums
pub mod Cases
pub mod Solvency
pub mod Admission
pub mod Billing
pub mod History
pub mod Finality
pub mod Examples
