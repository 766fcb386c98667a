-- ===== src/Budget/Billing.antt =====
-- adapters/budget/in_memory.py: the total billed to a tenant against its reservations.
use hexaqueue.Prelude.{ℕ, ◌+◌, ◌≤◌, ◌≡◌, Option, none, some, arith, ◌==◌, if◌then◌else◌}
use hexaqueue.Prelude.Lists.{sum_by}
use hexaqueue.Prelude.Dict.{sum_by-put_known, get, values, sum_by-put_new}
use hexaqueue.Prelude.Int.{ℤ, pos, pos_part, ◌-ℤ◌, -ℤ_parts, clamp_zero}
use hexaqueue.Budget.Reservation.{ReservationState, BudgetReservation}
use hexaqueue.Budget.Ledger.{
  Ledger, settled_of, reserve_budget, settle_found, segment_found, release_found,
}
use hexaqueue.Budget.Sums.{bill_lem}

abbrev pub recorded : ℕ → BudgetReservation → ℕ
recorded tenant r = if r.tenant_id == tenant then r.settled_credits else 0

-- The credits that the reservations of a tenant record as settled.
abbrev pub recorded_by : Ledger → ℕ → ℕ
recorded_by l tenant = sum_by (recorded tenant) (values l.reservations)

-- Nothing that a reservation records as settled is left unbilled.
abbrev pub IsBilled : ℕ → Ledger → Type 0
IsBilled tenant l = recorded_by l tenant ≤ settled_of l tenant

module _ (tenant : ℕ) (l : Ledger) (h : IsBilled tenant l) where
  pub reserve_budget-IsBilled :
      (now hold_id owner job : ℕ) (estimate : ℤ)
      → get hold_id l.reservations ≡ none
      → IsBilled tenant (reserve_budget l now hold_id owner job estimate).1
  unfolding reserve_budget
  reserve_budget-IsBilled now hold_id owner job estimate fresh =
      ground (arith, sum_by-put_new (recorded tenant) hold_id reservation l.reservations)
    where
      reservation : BudgetReservation
      reservation = record {
        created_at = now;
        held_credits = clamp_zero estimate;
        job_id = job;
        reservation_id = hold_id;
        settled_at = none;
        settled_credits = 0;
        state = ReservationState.active;
        tenant_id = owner;
      }

  pub segment_found-IsBilled :
      (rid : ℕ) (credits : ℤ) (caller : Option ℕ) (r : BudgetReservation)
      → get rid l.reservations ≡ some r
      → IsBilled tenant (segment_found l rid credits caller r).1
  unfolding segment_found
  segment_found-IsBilled rid credits caller r e = ground (
    arith,
    sum_by-put_known (recorded tenant) rid
        (record r { settled_credits = r.settled_credits + pos_part credits }) r l.reservations e,
    bill_lem r.tenant_id tenant (pos_part credits) l.settled_by_tenant,
  )

  pub settle_found-IsBilled :
      (now rid : ℕ) (actual : ℤ) (caller : Option ℕ) (r : BudgetReservation)
      → get rid l.reservations ≡ some r
      → IsBilled tenant (settle_found l now rid actual caller r).1
  unfolding settle_found
  settle_found-IsBilled now rid actual caller r e = ground (
    arith,
    sum_by-put_known (recorded tenant) rid
        (record r {
          settled_credits = clamp_zero actual;
          state = ReservationState.settled;
          settled_at = some now;
        })
        r l.reservations e,
    bill_lem r.tenant_id tenant (pos_part (actual -ℤ pos r.settled_credits)) l.settled_by_tenant,
    -ℤ_parts actual (pos r.settled_credits),
  )

  pub release_found-IsBilled :
      (now rid : ℕ) (caller : Option ℕ) (r : BudgetReservation)
      → get rid l.reservations ≡ some r
      → IsBilled tenant (release_found l now rid caller r).1
  unfolding release_found
  release_found-IsBilled now rid caller r e = ground (
    arith,
    sum_by-put_known (recorded tenant) rid
        (record r { state = ReservationState.released; settled_at = some now }) r l.reservations e,
  )
