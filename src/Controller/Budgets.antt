-- ===== src/Controller/Budgets.antt =====
-- local.py, _settle_or_release_job_budget and _ensure_budget_reservation. Walltimes are seconds.
use hexaqueue.Prelude.{
  ℕ, Bool, true, false, ◌&&◌, Option, none, some, inl, inr, if◌then◌else◌, ltb, is_some,
}
use hexaqueue.Prelude.Dict.{get, put, del}
use hexaqueue.Prelude.Int.{ℤ, pos, ltb_ℤ}
use hexaqueue.Lifecycle.{JobState, TerminalOutcome}
use hexaqueue.Budget.Reservation.{returned, raised, quota_exceeded}
use hexaqueue.Budget.Ledger.{
  Ledger, Outcome, reserve_budget, settle_budget, settle_segment, release_budget,
}
use hexaqueue.Controller.{
  Controller, JobRecord, StatusReason, with_state, Answer, ControllerError, CostModel,
}

-- `contextlib.suppress(Exception)`
abbrev suppress : {A : Type 0} → Outcome A → Ledger
suppress o = o.1

abbrev pub is_positive : Option ℕ → Bool
is_positive none = false
is_positive (some walltime) = ltb 0 walltime

unfoldable pub actual_credits : Option CostModel → Option JobRecord → Option ℕ → Option ℤ → ℤ
actual_credits model job walltime_seconds (some consumed_credits) = consumed_credits
actual_credits (some model) (some job) (some walltime_seconds) none =
    if ltb 0 walltime_seconds then model.calculate_actual_cost walltime_seconds job.spec else pos 0
actual_credits _ _ _ none = pos 0

-- The part behind the two look-ups: the ledger, and whether the reservation is forgotten.
unfoldable pub settle_held : Ledger → ℕ → ℕ → TerminalOutcome → Option ℕ → ℤ → Ledger × Bool
settle_held l now res_id TerminalOutcome.preempted walltime_seconds credits =
    (suppress (settle_segment l res_id credits none), false)
settle_held l now res_id TerminalOutcome.cancelled walltime_seconds credits =
    if is_positive walltime_seconds && ltb_ℤ (pos 0) credits
    then (suppress (settle_budget l now res_id credits none), true)
    else (suppress (release_budget l now res_id none), true)
settle_held l now res_id _ walltime_seconds credits =
    (suppress (settle_budget l now res_id credits none), true)

-- The part behind the look-ups of the port and of the reservation.
unfoldable pub settle_reserved :
    Option CostModel
    → ℕ
    → Controller
    → ℕ
    → TerminalOutcome
    → Option ℕ
    → Option ℤ
    → Option Ledger
    → Option ℕ
    → Controller
unfolding settle_held actual_credits
settle_reserved model now c job_id outcome walltime_seconds consumed_credits none _ = c
settle_reserved model now c job_id outcome walltime_seconds consumed_credits (some l) none = c
settle_reserved model now c job_id outcome walltime_seconds consumed_credits (some l)
      (some res_id) =
    let credits = actual_credits model (get job_id c.jobs) walltime_seconds consumed_credits in
    let (l', forgotten) = settle_held l now res_id outcome walltime_seconds credits in
    record c {
      budget_port = some l';
      job_reservations = if forgotten then del job_id c.job_reservations else c.job_reservations;
    }

unfoldable pub settle_or_release_job_budget :
    Option CostModel → ℕ → Controller → ℕ → TerminalOutcome → Option ℕ → Option ℤ → Controller
unfolding settle_reserved
settle_or_release_job_budget model now c job_id outcome walltime_seconds consumed_credits =
    settle_reserved model now c job_id outcome walltime_seconds consumed_credits c.budget_port
      (get job_id c.job_reservations)

-- `10.0` credits, in millionths of a credit.
abbrev pub default_estimate : ℤ
default_estimate = pos 10_000_000

abbrev estimated_credits : Option CostModel → JobRecord → ℤ
estimated_credits none job = default_estimate
estimated_credits (some model) job = model.calculate_estimated_cost job.spec

-- What the result of the reservation does: true when the job is blocked for want of credit. An error
-- that is no QuotaExceededError is raised again.
unfoldable pub record_reservation : Controller → JobRecord → Outcome ℕ → Answer (Bool × Controller)
record_reservation c job (returned res_id, l) = inr (
  false,
  record c { budget_port = some l; job_reservations = put job.spec.id res_id c.job_reservations },
)
record_reservation c job (raised quota_exceeded, l) = inr (
  true,
  record c {
    jobs = put job.spec.id (with_state job JobState.blocked StatusReason.budget_exhausted) c.jobs;
  },
)
record_reservation c job (raised _, l) = inl ControllerError.budget_error

-- The part behind the look-up of the port.
unfoldable pub reserve_with :
    Option CostModel → ℕ → ℕ → Controller → JobRecord → Option Ledger → Answer (Bool × Controller)
unfolding record_reservation
reserve_with model now hold_id c job none = inr (false, c)
reserve_with model now hold_id c job (some l) =
    if is_some (get job.spec.id c.job_reservations)
    then inr (false, c)
    else record_reservation c job
        (reserve_budget l now hold_id job.tenant_id job.spec.id (estimated_credits model job))

unfoldable pub ensure_budget_reservation :
    Option CostModel → ℕ → ℕ → Controller → JobRecord → Answer (Bool × Controller)
unfolding reserve_with
ensure_budget_reservation model now hold_id c job =
    reserve_with model now hold_id c job c.budget_port
