-- ===== src/Budget/Solvency.antt =====
-- adapters/budget/in_memory.py: what a tenant has settled and holds, against its deposit.
use hexaqueue.Prelude.{ℕ, ◌+◌, ◌≤◌, ◌≡◌, ◌≢◌, Option, none, some, arith}
use hexaqueue.Prelude.Lists.{sum_by}
use hexaqueue.Prelude.Dict.{sum_by-put_known, get, values, sum_by-put_new}
use hexaqueue.Prelude.Int.{ℤ, pos, pos_part, ◌-ℤ◌, -ℤ_parts, clamp_zero}
use hexaqueue.Budget.Reservation.{ReservationState, BudgetReservation}
use hexaqueue.Budget.Ledger.{
  Ledger, deposit_of, settled_of, hold, reserve_budget, settle_found, segment_found, release_found,
}
use hexaqueue.Budget.Sums.{bill_lem}

abbrev pub held_by : Ledger → ℕ → ℕ
held_by l tenant = sum_by (hold tenant) (values l.reservations)

abbrev pub committed : Ledger → ℕ → ℕ
committed l tenant = settled_of l tenant + held_by l tenant

abbrev pub IsSolvent : ℕ → Ledger → Type 0
IsSolvent tenant l = committed l tenant ≤ deposit_of l tenant

pub reserve_budget-IsSolvent :
    (tenant : ℕ) (l : Ledger) (now hold_id owner job : ℕ) (estimate : ℤ)
    → get hold_id l.reservations ≡ none
    → IsSolvent tenant l
    → IsSolvent tenant (reserve_budget l now hold_id owner job estimate).1
unfolding reserve_budget
reserve_budget-IsSolvent tenant l now hold_id owner job estimate fresh h =
    ground (arith, sum_by-put_new (hold tenant) hold_id (reservation owner) l.reservations)
  where
    reservation : ℕ → BudgetReservation
    reservation o = record {
      created_at = now;
      held_credits = clamp_zero estimate;
      job_id = job;
      reservation_id = hold_id;
      settled_at = none;
      settled_credits = 0;
      state = ReservationState.active;
      tenant_id = o;
    }

pub segment_found-IsSolvent :
    (tenant : ℕ) (l : Ledger) (rid : ℕ) (credits : ℤ) (caller : Option ℕ) (r : BudgetReservation)
    → get rid l.reservations ≡ some r
    → r.settled_credits + pos_part credits ≤ r.held_credits
    → IsSolvent tenant l
    → IsSolvent tenant (segment_found l rid credits caller r).1
unfolding segment_found
segment_found-IsSolvent tenant l rid credits caller r e within h = ground (
  arith,
  sum_by-put_known (hold tenant) rid billed r l.reservations e,
  bill_lem r.tenant_id tenant (pos_part credits) l.settled_by_tenant,
)
  where
    billed : BudgetReservation
    billed = record r { settled_credits = r.settled_credits + pos_part credits }

pub settle_found-IsSolvent :
    (tenant : ℕ) (l : Ledger) (now rid : ℕ) (actual : ℤ) (caller : Option ℕ) (r : BudgetReservation)
    → get rid l.reservations ≡ some r
    → r.state ≢ ReservationState.expired
    → pos_part actual ≤ r.held_credits
    → IsSolvent tenant l
    → IsSolvent tenant (settle_found l now rid actual caller r).1
unfolding settle_found
settle_found-IsSolvent tenant l now rid actual caller r e live within h = ground (
  arith,
  sum_by-put_known (hold tenant) rid closed r l.reservations e,
  bill_lem r.tenant_id tenant (pos_part (actual -ℤ pos r.settled_credits)) l.settled_by_tenant,
  -ℤ_parts actual (pos r.settled_credits),
)
  where
    closed : BudgetReservation
    closed = record r {
      settled_credits = clamp_zero actual;
      state = ReservationState.settled;
      settled_at = some now;
    }

pub release_found-IsSolvent :
    (tenant : ℕ) (l : Ledger) (now rid : ℕ) (caller : Option ℕ) (r : BudgetReservation)
    → get rid l.reservations ≡ some r
    → IsSolvent tenant l
    → IsSolvent tenant (release_found l now rid caller r).1
unfolding release_found
release_found-IsSolvent tenant l now rid caller r e h =
    ground (arith, sum_by-put_known (hold tenant) rid released r l.reservations e)
  where
    released : BudgetReservation
    released = record r { state = ReservationState.released; settled_at = some now }
