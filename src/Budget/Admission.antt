-- ===== src/Budget/Admission.antt =====
-- adapters/budget/in_memory.py, reserve_budget: when a hold is granted, and what it costs whom.
use hexaqueue.Prelude.{ℕ, ◌+◌, ◌≤◌, ◌<◌, ◌≡◌, ◌≢◌, ◌⊎◌, none, arith, ◌==◌, if◌then◌else◌}
use hexaqueue.Prelude.Dict.{get, sum_by-put_new}
use hexaqueue.Prelude.Int.{pos}
use hexaqueue.Budget.Reservation.{
  ReservationState, available_balance, returned, raised, quota_exceeded,
}
use hexaqueue.Budget.Ledger.{Ledger, hold, get_account, reserve_budget}

-- A request with proper and fresh identifiers is granted if the balance covers the estimate, and then
-- takes the estimate from the available balance of its tenant and nothing from others'; else it is
-- refused for its quota, and the ledger stays as it was.
pub reserve_budget_admits :
    (l : Ledger) (now hold_id owner job estimate other : ℕ)
    → hold_id ≢ 0
    → owner ≢ 0
    → job ≢ 0
    → get hold_id l.reservations ≡ none
    → ((estimate ≤ available_balance (get_account l owner))
        × ((reserve_budget l now hold_id owner job (pos estimate)).0 ≡ returned hold_id)
        × (available_balance
                (get_account (reserve_budget l now hold_id owner job (pos estimate)).1 other)
              + (if other == owner then estimate else 0)
            ≡ available_balance (get_account l other)))
      ⊎ ((available_balance (get_account l owner) < estimate)
          × (reserve_budget l now hold_id owner job (pos estimate) ≡ (raised quota_exceeded, l)))
unfolding reserve_budget get_account available_balance
reserve_budget_admits l now hold_id owner job estimate other i o j fresh = ground (
  arith,
  sum_by-put_new (hold other) hold_id
      (record {
        created_at = now;
        held_credits = estimate;
        job_id = job;
        reservation_id = hold_id;
        settled_at = none;
        settled_credits = 0;
        state = ReservationState.active;
        tenant_id = owner;
      })
      l.reservations fresh,
)
