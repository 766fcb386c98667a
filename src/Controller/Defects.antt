-- ===== src/Controller/Defects.antt =====
-- Histories of the controller's calls with results that its callers may not expect.
use hexaqueue.Prelude.{◌≡◌, refl, inr, Bool, Option, none, some, List, [], ◌∷◌}
use hexaqueue.Prelude.Dict.{get}
use hexaqueue.Lifecycle.{JobState, TerminalOutcome}
use hexaqueue.Dag.{is_job_ready, is_job_blocked, is_dependency_satisfied, is_dependency_blocked}
use hexaqueue.Controller.{Controller, RunSubmission, StatusReason, with_state, with_outcome}
use hexaqueue.Placement.{set_of}
use hexaqueue.Controller.Runs.{update_job_outcome}
use hexaqueue.Controller.Nodes.{recover_dead_node_jobs}
use hexaqueue.Controller.Rewind.{rewind_run}
use hexaqueue.Controller.Commands.{Command, run}
use hexaqueue.Controller.Examples.{
  job_of, idle_controller, two_jobs, no_violation, first_pending, submitted_controller,
  running_controller,
}

-- The job of a dead worker that fails for good keeps its hold on credit.
leaked_reservation :
    (recover_dead_node_jobs 5 60 running_controller).job_reservations ≡ (1, 40) ∷ []
unfolding recover_dead_node_jobs is_job_ready is_job_blocked is_dependency_satisfied
leaked_reservation = refl

-- A rewound job behind another one is pending, and is not queued when its parent completes again.
lost_after_rewind :
    (run none no_violation
      ((none, Command.report 0 1 TerminalOutcome.completed none none none)
        ∷ (none, Command.rewind 9 (1 ∷ []))
        ∷ (none, Command.report 0 1 TerminalOutcome.completed none none none)
        ∷ [])
      (record submitted_controller { queue = [] })).queue
    ≡ with_state (job_of 2) JobState.pending StatusReason.no_reason
      ∷ with_state
          (with_outcome (job_of 1) TerminalOutcome.completed (StatusReason.reported none))
          JobState.pending
          StatusReason.dag_rewind
      ∷ []
unfolding run rewind_run set_of is_job_ready is_job_blocked is_dependency_satisfied
    is_dependency_blocked
lost_after_rewind = refl

-- The same with a third job on its own.
abbrev three_jobs : RunSubmission
three_jobs = record two_jobs { jobs = job_of 1 ∷ job_of 2 ∷ job_of 3 ∷ [] }

-- The state of the second job after a history of three jobs.
abbrev second_after : List (Option Bool × Command) → Option JobState
second_after commands =
    elim (get 2
      (run none no_violation ((none, Command.submit three_jobs) ∷ commands) idle_controller).jobs) [
        | none ↦ none
        | some job ↦ some job.status.state
      ]

-- A job that waits for a held one is blocked by the report of a third, and stays blocked when the held
-- job is released and completes.
blocked_by_hold :
    second_after (
      (none, Command.hold 1)
      ∷ (none, Command.report 0 3 TerminalOutcome.completed none none none)
      ∷ (none, Command.release 1)
      ∷ (none, Command.report 0 1 TerminalOutcome.completed none none none)
      ∷ [])
    ≡ some JobState.blocked
unfolding run set_of is_job_ready is_job_blocked is_dependency_satisfied is_dependency_blocked
blocked_by_hold = refl

-- A report on a job that is done replaces its outcome.
replaced_outcome :
    (c : Controller) × (update_job_outcome none 0
        (run none no_violation ((none, Command.cancel_one 0 1) ∷ []) submitted_controller)
        1
        TerminalOutcome.completed
        none
        none
        none
      ≡ inr c)
    × (get 1 c.jobs
        ≡ some (with_outcome first_pending TerminalOutcome.completed (StatusReason.reported none)))
unfolding run update_job_outcome is_job_ready is_job_blocked is_dependency_satisfied
    is_dependency_blocked
replaced_outcome = (_, refl, refl)
