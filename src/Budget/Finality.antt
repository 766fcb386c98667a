-- ===== src/Budget/Finality.antt =====
-- adapters/budget/in_memory.py: exact effects, ownership, and the finality of closed reservations.
use hexaqueue.Prelude.{
  ℕ, ◌+◌, ◌≤◌, ◌≡◌, ◌≢◌, refl, true, false, Option, some, List, [], ◌∷◌, arith, ◌==◌, if◌then◌else◌,
}
use hexaqueue.Prelude.Dict.{Dict, sum_by-put_known, get, put, get-put, get-put_ne}
use hexaqueue.Prelude.Int.{ℤ, pos, pos_part}
use hexaqueue.Budget.Reservation.{
  ReservationState, returned, raised, hexaqueue_error, is_open, is_active, BudgetReservation,
}
use hexaqueue.Budget.Ledger.{
  Ledger, reserve_budget, settle_budget, settle_found, settle_segment, segment_found,
  release_budget, release_found,
}
use hexaqueue.Budget.Sums.{bill_lem}
use hexaqueue.Budget.Cases.{settle_budget_cases, settle_segment_cases, release_budget_cases}
use hexaqueue.Budget.Solvency.{committed}
use hexaqueue.Budget.History.{Call, reserve, settle, segment, release, step, run, IsFresh, AllFresh}
use hexaqueue.Budget.Ledger.{hold, settled_of}

-- A segment that is accepted and fits what is left of its hold moves its credits from the holds of
-- the tenant to its settled credits: of no tenant does the sum of both change.
pub settle_segment-committed :
    (tenant : ℕ) (l : Ledger) (rid credits : ℕ) (caller : Option ℕ) (r : BudgetReservation) (s : ℕ)
    → get rid l.reservations ≡ some r
    → r.settled_credits + credits ≤ r.held_credits
    → (settle_segment l rid (pos credits) caller).0 ≡ returned s
    → (s ≡ r.settled_credits + credits)
      × (settled_of (settle_segment l rid (pos credits) caller).1 tenant
          ≡ settled_of l tenant + (if tenant == r.tenant_id then credits else 0))
      × (committed (settle_segment l rid (pos credits) caller).1 tenant ≡ committed l tenant)
unfolding settle_segment
settle_segment-committed tenant l rid credits caller r s e within done = ground (
  arith,
  sum_by-put_known (hold tenant) rid (record r { settled_credits = r.settled_credits + credits }) r
      l.reservations e,
  bill_lem r.tenant_id tenant credits l.settled_by_tenant,
)

-- A caller that names another tenant than the owner is refused, and the ledger stays as it was.
pub foreign_refused :
    (l : Ledger) (now rid : ℕ) (credits : ℤ) (caller : ℕ) (r : BudgetReservation)
    → get rid l.reservations ≡ some r
    → r.tenant_id ≢ caller
    → (settle_budget l now rid credits (some caller) ≡ (raised hexaqueue_error, l))
      × (settle_segment l rid credits (some caller) ≡ (raised hexaqueue_error, l))
      × (release_budget l now rid (some caller) ≡ (raised hexaqueue_error, l))
unfolding settle_budget settle_segment release_budget
foreign_refused l now rid credits caller r e other = ground arith

-- The entry under `k` is replaced only where the call is not refused.
other_key :
    (k rid : ℕ) (r s new : BudgetReservation) (d : Dict BudgetReservation)
    → get rid d ≡ some r
    → get k d ≡ some s
    → is_open r.state ≡ false
    → is_open s.state ≡ true
    → get rid (put k new d) ≡ some r
other_key k rid r s new d e f closed live = ground (arith, get-put k rid new d)

open_of_active : (s : ReservationState) → is_active s ≡ true → is_open s ≡ true
open_of_active ReservationState.active h = refl
open_of_active s h = cc

step_closed :
    (l : Ledger) (c : Call) (rid : ℕ) (r : BudgetReservation)
    → IsFresh l c
    → get rid l.reservations ≡ some r
    → is_open r.state ≡ false
    → get rid (step l c).reservations ≡ some r
unfolding step reserve_budget settle_found segment_found release_found
step_closed l (reserve now hold_id owner job estimate) rid r f e closed = grind (arith, get-put_ne)
step_closed l (settle now k actual caller) rid r f e closed =
    settle_budget_cases (λ m. get rid m.reservations ≡ some r) l e now k actual caller
      λ s found. ground (
        arith,
        open_of_active s.state,
        other_key k rid r s
            (record s {
              settled_credits = pos_part actual;
              state = ReservationState.settled;
              settled_at = some now;
            })
            l.reservations e found closed,
      )
step_closed l (segment k credits caller) rid r f e closed =
    settle_segment_cases (λ m. get rid m.reservations ≡ some r) l e k credits caller
      λ s found. ground (
        arith,
        open_of_active s.state,
        other_key k rid r s (record s { settled_credits = s.settled_credits + pos_part credits })
            l.reservations e found closed,
      )
step_closed l (release now k caller) rid r f e closed =
    release_budget_cases (λ m. get rid m.reservations ≡ some r) l e now k caller
      λ s found. ground (
        arith,
        open_of_active s.state,
        other_key k rid r s (record s { state = ReservationState.released; settled_at = some now })
            l.reservations e found closed,
      )

-- A settled or released reservation never changes again under any calls that use fresh identifiers.
pub run_closed :
    (l : Ledger) (cs : List Call) (rid : ℕ) (r : BudgetReservation)
    → AllFresh l cs
    → get rid l.reservations ≡ some r
    → is_open r.state ≡ false
    → get rid (run l cs).reservations ≡ some r
unfolding run
run_closed l [] rid r f e closed = e
run_closed l (c ∷ cs) rid r f e closed =
    run_closed (step l c) cs rid r f.1 (step_closed l c rid r f.0 e closed) closed
