-- ===== src/Budget/History.antt =====
-- adapters/budget/in_memory.py: what holds after any sequence of calls of the adapter.
use hexaqueue.Prelude.{ℕ, ◌+◌, ◌≤◌, ◌≡◌, ◌≢◌, subst, Option, none, some, List, [], ◌∷◌}
use hexaqueue.Prelude.Dict.{get}
use hexaqueue.Prelude.Int.{ℤ, pos_part}
use hexaqueue.Budget.Reservation.{ReservationState, BudgetReservation}
use hexaqueue.Budget.Ledger.{Ledger, reserve_budget, settle_budget, settle_segment, release_budget}
use hexaqueue.Budget.Cases.{settle_budget_cases, settle_segment_cases, release_budget_cases}
use hexaqueue.Budget.Solvency.{
  IsSolvent, reserve_budget-IsSolvent, segment_found-IsSolvent, settle_found-IsSolvent,
  release_found-IsSolvent,
}
use hexaqueue.Budget.Billing.{
  IsBilled, reserve_budget-IsBilled, segment_found-IsBilled, settle_found-IsBilled,
  release_found-IsBilled,
}

-- A call that changes the ledger, with the time where it reads the clock.
pub data Call : Type 0 where
  reserve : (now hold_id owner job : ℕ) → ℤ → Call
  settle : (now rid : ℕ) → ℤ → Option ℕ → Call
  segment : (rid : ℕ) → ℤ → Option ℕ → Call
  release : (now rid : ℕ) → Option ℕ → Call

unfoldable pub step : Ledger → Call → Ledger
step l (reserve now hold_id owner job estimate) =
    (reserve_budget l now hold_id owner job estimate).1
step l (settle now rid actual caller) = (settle_budget l now rid actual caller).1
step l (segment rid credits caller) = (settle_segment l rid credits caller).1
step l (release now rid caller) = (release_budget l now rid caller).1

unfoldable pub run : Ledger → List Call → Ledger
run l [] = l
run l (c ∷ cs) = run (step l c) cs

-- The identifier of a new hold is new.
abbrev pub IsFresh : Ledger → Call → Type 0
IsFresh l (reserve now hold_id owner job estimate) = get hold_id l.reservations ≡ none
IsFresh l _ = Unit

abbrev pub AllFresh : Ledger → List Call → Type 0
AllFresh l [] = Unit
AllFresh l (c ∷ cs) = IsFresh l c × AllFresh (step l c) cs

-- The charge fits the hold of a reservation that has not expired.
abbrev pub Charges : ℕ → Option BudgetReservation → Type 0
Charges credits none = Unit
Charges credits (some r) = (r.state ≢ ReservationState.expired) × (credits ≤ r.held_credits)

abbrev pub ChargesMore : ℕ → Option BudgetReservation → Type 0
ChargesMore credits none = Unit
ChargesMore credits (some r) = r.settled_credits + credits ≤ r.held_credits

-- Each final settlement charges at most the hold, and each segment at most what is left of it.
abbrev pub IsWithin : Ledger → Call → Type 0
IsWithin l (settle now rid actual caller) = Charges (pos_part actual) (get rid l.reservations)
IsWithin l (segment rid credits caller) = ChargesMore (pos_part credits) (get rid l.reservations)
IsWithin l _ = Unit

abbrev pub AllWithin : Ledger → List Call → Type 0
AllWithin l [] = Unit
AllWithin l (c ∷ cs) = IsWithin l c × AllWithin (step l c) cs

step-IsSolvent :
    (tenant : ℕ) (l : Ledger) (c : Call)
    → IsFresh l c
    → IsWithin l c
    → IsSolvent tenant l
    → IsSolvent tenant (step l c)
unfolding step
step-IsSolvent tenant l (reserve now hold_id owner job estimate) f w h =
    reserve_budget-IsSolvent tenant l now hold_id owner job estimate f h
step-IsSolvent tenant l (settle now rid actual caller) f w h =
    settle_budget_cases (IsSolvent tenant) l h now rid actual caller λ r e.
      let c : Charges (pos_part actual) (some r) = subst (Charges (pos_part actual)) e w in
      settle_found-IsSolvent tenant l now rid actual caller r e c.0 c.1 h
step-IsSolvent tenant l (segment rid credits caller) f w h =
    settle_segment_cases (IsSolvent tenant) l h rid credits caller λ r e.
      segment_found-IsSolvent tenant l rid credits caller r e
        (subst (ChargesMore (pos_part credits)) e w) h
step-IsSolvent tenant l (release now rid caller) f w h =
    release_budget_cases (IsSolvent tenant) l h now rid caller
      λ r e. release_found-IsSolvent tenant l now rid caller r e h

-- After any calls that use fresh identifiers and charge each reservation within its hold, what a
-- tenant has settled and holds is within its deposit, if it was before.
pub run-IsSolvent :
    (tenant : ℕ) (l : Ledger) (cs : List Call)
    → AllFresh l cs
    → AllWithin l cs
    → IsSolvent tenant l
    → IsSolvent tenant (run l cs)
unfolding run
run-IsSolvent tenant l [] f w h = h
run-IsSolvent tenant l (c ∷ cs) f w h =
    run-IsSolvent tenant (step l c) cs f.1 w.1 (step-IsSolvent tenant l c f.0 w.0 h)

step-IsBilled :
    (tenant : ℕ) (l : Ledger) (c : Call)
    → IsFresh l c
    → IsBilled tenant l
    → IsBilled tenant (step l c)
unfolding step
step-IsBilled tenant l (reserve now hold_id owner job estimate) f h =
    reserve_budget-IsBilled tenant l h now hold_id owner job estimate f
step-IsBilled tenant l (settle now rid actual caller) f h =
    settle_budget_cases (IsBilled tenant) l h now rid actual caller
      (settle_found-IsBilled tenant l h now rid actual caller)
step-IsBilled tenant l (segment rid credits caller) f h =
    settle_segment_cases (IsBilled tenant) l h rid credits caller
      (segment_found-IsBilled tenant l h rid credits caller)
step-IsBilled tenant l (release now rid caller) f h =
    release_budget_cases (IsBilled tenant) l h now rid caller
      (release_found-IsBilled tenant l h now rid caller)

-- After any calls that use fresh identifiers, a tenant has been billed for at least what its
-- reservations record as settled, if it was before.
pub run-IsBilled :
    (tenant : ℕ) (l : Ledger) (cs : List Call)
    → AllFresh l cs
    → IsBilled tenant l
    → IsBilled tenant (run l cs)
unfolding run
run-IsBilled tenant l [] f h = h
run-IsBilled tenant l (c ∷ cs) f h =
    run-IsBilled tenant (step l c) cs f.1 (step-IsBilled tenant l c f.0 h)
