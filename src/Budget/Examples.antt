-- ===== src/Budget/Examples.antt =====
-- A tenant with two holds on which the theorems about the ledger are applied.
use hexaqueue.Prelude.{
  ℕ, ◌+◌, ◌≤◌, ◌<◌, ◌≡◌, ◌⊎◌, refl, none, some, List, [], ◌∷◌, arith, ◌==◌, if◌then◌else◌,
}
use hexaqueue.Prelude.Dict.{get}
use hexaqueue.Prelude.Int.{pos, ◌-ℤ◌}
use hexaqueue.Budget.Reservation.{
  ReservationState, BudgetReservation, available_balance, returned, raised, quota_exceeded,
}
use hexaqueue.Budget.Ledger.{
  Ledger, get_account, settled_of, reserve_budget, settle_budget, settle_segment, release_budget,
}
use hexaqueue.Budget.Solvency.{IsSolvent, committed}
use hexaqueue.Budget.Admission.{reserve_budget_admits}
use hexaqueue.Budget.Billing.{IsBilled}
use hexaqueue.Budget.History.{
  Call, reserve, settle, segment, release, run, step, AllFresh, AllWithin, run-IsSolvent,
  run-IsBilled,
}
use hexaqueue.Budget.Finality.{run_closed, settle_segment-committed}

abbrev hold_of : ℕ → ReservationState → BudgetReservation
hold_of id state = record {
  created_at = 0;
  held_credits = 40;
  job_id = 9;
  reservation_id = id;
  settled_at = none;
  settled_credits = 10;
  state = state;
  tenant_id = 7;
}

abbrev active_hold : BudgetReservation
active_hold = hold_of 1 ReservationState.active

abbrev released_hold : BudgetReservation
released_hold = hold_of 2 ReservationState.released

abbrev two_holds : Ledger
two_holds = record {
  deposits = (7, 100) ∷ [];
  reservations = (1, active_hold) ∷ (2, released_hold) ∷ [];
  settled_by_tenant = (7, 20) ∷ [];
}

abbrev some_calls : List Call
some_calls =
    segment 1 (pos 5) none
    ∷ release 8 2 (some 7)
    ∷ reserve 9 3 7 4 (pos 50)
    ∷ settle 9 1 (pos 30) none
    ∷ []

-- The new hold fits what is left exactly.
final_balance : available_balance (get_account (run two_holds some_calls) 7) ≡ 10
unfolding run available_balance get_account step settle_budget reserve_budget release_budget
    settle_segment ◌-ℤ◌
final_balance = refl

reserve_budget_admits_example :
    ((50 ≤ available_balance (get_account two_holds 7))
      × ((reserve_budget two_holds 9 3 7 4 (pos 50)).0 ≡ returned 3)
      × (available_balance (get_account (reserve_budget two_holds 9 3 7 4 (pos 50)).1 7)
            + (if 7 == 7 then 50 else 0)
          ≡ available_balance (get_account two_holds 7)))
    ⊎ ((available_balance (get_account two_holds 7) < 50)
        × (reserve_budget two_holds 9 3 7 4 (pos 50) ≡ (raised quota_exceeded, two_holds)))
reserve_budget_admits_example =
    reserve_budget_admits two_holds 9 3 7 4 50 7 (omega arith) (omega arith) (omega arith) refl

fresh_calls : AllFresh two_holds some_calls
unfolding step release_budget settle_segment
fresh_calls = (tt, (tt, (refl, (tt, tt))))

within_calls : AllWithin two_holds some_calls
unfolding step release_budget settle_segment reserve_budget get_account available_balance
within_calls = (omega arith, (tt, (tt, (((λ e. cc), omega arith), tt))))

IsSolvent-start : IsSolvent 7 two_holds
IsSolvent-start = omega arith

IsBilled-start : IsBilled 7 two_holds
IsBilled-start = omega arith

run-IsSolvent_example : IsSolvent 7 (run two_holds some_calls)
run-IsSolvent_example =
    run-IsSolvent 7 two_holds some_calls fresh_calls within_calls IsSolvent-start

run-IsBilled_example : IsBilled 7 (run two_holds some_calls)
run-IsBilled_example = run-IsBilled 7 two_holds some_calls fresh_calls IsBilled-start

run_closed_example : get 2 (run two_holds some_calls).reservations ≡ some released_hold
run_closed_example = run_closed two_holds some_calls 2 released_hold fresh_calls refl refl

segment_accepted : (settle_segment two_holds 1 (pos 5) none).0 ≡ returned 15
unfolding settle_segment
segment_accepted = refl

settle_segment-committed_example :
    (15 ≡ active_hold.settled_credits + 5)
    × (settled_of (settle_segment two_holds 1 (pos 5) none).1 7
        ≡ settled_of two_holds 7 + (if 7 == active_hold.tenant_id then 5 else 0))
    × (committed (settle_segment two_holds 1 (pos 5) none).1 7 ≡ committed two_holds 7)
settle_segment-committed_example =
    settle_segment-committed 7 two_holds 1 5 none active_hold 15 refl (omega arith) segment_accepted
