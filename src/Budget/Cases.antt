-- ===== src/Budget/Cases.antt =====
-- adapters/budget/in_memory.py: a call finds its reservation or not.
use hexaqueue.Prelude.{ℕ, ◌≡◌, inl, inr, Option, some, Option-cases}
use hexaqueue.Prelude.Dict.{get}
use hexaqueue.Prelude.Int.{ℤ}
use hexaqueue.Budget.Reservation.{BudgetReservation}
use hexaqueue.Budget.Ledger.{
  Ledger, settle_budget, settle_found, settle_segment, segment_found, release_budget, release_found,
}

module _ {ℓ} (P : Ledger → Type ℓ) (l : Ledger) (same : P l) where
  pub settle_budget_cases :
      (now rid : ℕ) (actual : ℤ) (caller : Option ℕ)
      → ((r : BudgetReservation)
          → get rid l.reservations ≡ some r
          → P (settle_found l now rid actual caller r).1)
      → P (settle_budget l now rid actual caller).1
  unfolding settle_budget
  settle_budget_cases now rid actual caller f = elim (Option-cases (get rid l.reservations)) [
    | inl e ↦ rw (e, settle_budget) same
    | inr (r, e) ↦ rw (e, settle_budget) (f r e)
  ]

  pub settle_segment_cases :
      (rid : ℕ) (credits : ℤ) (caller : Option ℕ)
      → ((r : BudgetReservation)
          → get rid l.reservations ≡ some r
          → P (segment_found l rid credits caller r).1)
      → P (settle_segment l rid credits caller).1
  unfolding settle_segment
  settle_segment_cases rid credits caller f = elim (Option-cases (get rid l.reservations)) [
    | inl e ↦ rw (e, settle_segment) same
    | inr (r, e) ↦ rw (e, settle_segment) (f r e)
  ]

  pub release_budget_cases :
      (now rid : ℕ) (caller : Option ℕ)
      → ((r : BudgetReservation)
          → get rid l.reservations ≡ some r
          → P (release_found l now rid caller r).1)
      → P (release_budget l now rid caller).1
  unfolding release_budget
  release_budget_cases now rid caller f = elim (Option-cases (get rid l.reservations)) [
    | inl e ↦ rw (e, release_budget) same
    | inr (r, e) ↦ rw (e, release_budget) (f r e)
  ]
