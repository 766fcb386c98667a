-- ===== src/Controller/Examples.antt =====
-- A run of two jobs, the second behind the first, on which the theorems about the controller are
-- applied.
use hexaqueue.Prelude.{
  List, ℕ, ◌≡◌, ◌≢◌, refl, subst, inr, true, false, Bool, none, some, [], ◌∷◌, ◌==◌, if◌then◌else◌,
  arith,
}
use hexaqueue.Prelude.Dict.{get}
use hexaqueue.Prelude.Int.{pos}
use hexaqueue.Lifecycle.{JobState, TerminalOutcome, status_valid}
use hexaqueue.Dag.{Dependencies, TriggerCondition, is_job_ready, is_dependency_satisfied}
use hexaqueue.Budget.Ledger.{empty_ledger}
use hexaqueue.Controller.{
  Controller, JobRecord, RunSubmission, StatusReason, with_state, with_outcome, enqueue, remove,
}
use hexaqueue.Controller.Advance.{advance_dependents}
use hexaqueue.Controller.Passes.{Advanced}
use hexaqueue.Controller.Settling.{AreValid}
use hexaqueue.Controller.Settled.{IsSettled, advance_dependents-IsSettled}
use hexaqueue.Placement.{set_of}
use hexaqueue.Controller.Runs.{job_ids, update_job_outcome}
use hexaqueue.Controller.Jobs.{hold_job, release_job}
use hexaqueue.Controller.Commands.{Command, run}
use hexaqueue.Controller.Sound.{IsSound}
use hexaqueue.Controller.Histories.{run-IsSound}
use hexaqueue.Controller.Outcomes.{update_job_outcome-settles}
use hexaqueue.Controller.Machine.{Follows, run-Follows}
use hexaqueue.Controller.Status.{RunStatusReport, get_run_status}
use hexaqueue.Controller.Counts.{AreLookedUp, Counts, get_run_status-Counts}
use hexaqueue.Controller.Holds.{release-hold}

abbrev pub job_of : ℕ → JobRecord
job_of id = record {
  spec = record {
    id = id;
    user = 7;
    cpus = 1;
    collateral_ids = [];
    priority = pos 0;
    checkpointable = true;
    priority_bonus = pos 0;
    created_at = id;
  };
  run_id = 9;
  tenant_id = 7;
  max_retries = 1;
  status = record { state = JobState.submitted; outcome = none };
  reason = StatusReason.no_reason;
  assigned_worker_id = none;
  retry_count = 0;
}

abbrev pub idle_controller : Controller
idle_controller = record {
  queue = [];
  budget_port = some (empty_ledger []);
  job_reservations = [];
  runs = [];
  jobs = [];
  dag_engines = [];
  nodes = [];
  dead_letters = [];
}

abbrev pub two_jobs : RunSubmission
two_jobs = record { id = 9; jobs = job_of 1 ∷ job_of 2 ∷ []; dependencies = (2, 1 ∷ []) ∷ [] }

abbrev pub no_violation : JobRecord → Bool
no_violation job = false

abbrev chain : Dependencies
chain = (2, record { parent_job_id = 1; condition = TriggerCondition.after_ok } ∷ []) ∷ []

abbrev pub first_pending : JobRecord
first_pending = with_state (job_of 1) JobState.pending StatusReason.no_reason

-- The controller after the submission.
abbrev pub submitted_controller : Controller
submitted_controller = record idle_controller {
  queue = first_pending ∷ [];
  runs = (9, two_jobs) ∷ [];
  jobs = (1, first_pending) ∷ (2, job_of 2) ∷ [];
  dag_engines = (9, chain) ∷ [];
}

submitted_history :
    run none no_violation ((none, Command.submit two_jobs) ∷ []) idle_controller
    ≡ submitted_controller
unfolding run set_of is_job_ready is_dependency_satisfied
submitted_history = refl

idle-IsSound : IsSound idle_controller
idle-IsSound = record { jobs_sound = λ k job e. cc e; unique = tt; queue_pending = tt }

submitted-IsSound : IsSound submitted_controller
unfolding status_valid
submitted-IsSound = subst IsSound submitted_history (
    run-IsSound none no_violation ((none, Command.submit two_jobs) ∷ []) idle_controller
      (((refl, omega arith, λ e. refl), ((refl, omega arith, λ e. refl), tt)), tt) idle-IsSound)

submitted-AreValid : AreValid submitted_controller.jobs
submitted-AreValid k job e = (submitted-IsSound.jobs_sound k job e).valid

run-IsSound_example :
    IsSound (run none no_violation ((some true, Command.submit two_jobs) ∷ []) idle_controller)
unfolding status_valid
run-IsSound_example =
    run-IsSound none no_violation ((some true, Command.submit two_jobs) ∷ []) idle_controller
      (((refl, omega arith, λ e. refl), ((refl, omega arith, λ e. refl), tt)), tt) idle-IsSound

run-Follows_example :
    Follows none no_violation submitted_controller
      ((none, Command.hold 1) ∷ (none, Command.release 1) ∷ [])
run-Follows_example =
    run-Follows none no_violation ((none, Command.hold 1) ∷ (none, Command.release 1) ∷ [])
      submitted_controller (refl, (refl, tt)) (tt, (tt, tt)) submitted-IsSound

advance_dependents-IsSettled_example :
    IsSettled chain
      (1 ∷ 2 ∷ [])
      (advance_dependents chain (1 ∷ 2 ∷ []) submitted_controller.jobs []).jobs
    × AreValid (advance_dependents chain (1 ∷ 2 ∷ []) submitted_controller.jobs []).jobs
    × ((k : ℕ)
        → Advanced
            (get k submitted_controller.jobs)
            (get k (advance_dependents chain (1 ∷ 2 ∷ []) submitted_controller.jobs []).jobs))
advance_dependents-IsSettled_example =
    advance_dependents-IsSettled chain (1 ∷ 2 ∷ []) submitted_controller.jobs [] submitted-AreValid

update_job_outcome-settles_example :
    (c' : Controller) × (update_job_outcome none 0 submitted_controller 1 TerminalOutcome.completed
        none none none
      ≡ inr c')
    × (get 1 c'.jobs
        ≡ some (with_outcome first_pending TerminalOutcome.completed (StatusReason.reported none)))
    × IsSettled chain (job_ids two_jobs) c'.jobs
    × ((k : ℕ) → k ≢ 1 → Advanced (get k submitted_controller.jobs) (get k c'.jobs))
update_job_outcome-settles_example =
    update_job_outcome-settles none 0 submitted_controller 1 first_pending two_jobs chain
      TerminalOutcome.completed none none none submitted-IsSound refl refl refl

-- The controller with a hold on credit for the first job.
abbrev reserved_controller : Controller
reserved_controller = record submitted_controller { job_reservations = (1, 40) ∷ [] }

get_run_status-Counts_example :
    (jobs : List JobRecord) × (report : RunStatusReport) × (get_run_status submitted_controller 9
      ≡ inr report)
    × AreLookedUp (job_ids two_jobs) submitted_controller.jobs jobs
    × Counts jobs report
get_run_status-Counts_example =
    get_run_status-Counts submitted_controller 9 two_jobs submitted-AreValid refl (refl, (refl, tt))

release-hold_example :
    (held : Controller) × (hold_job submitted_controller 1 ≡ inr held)
    × (after : Controller) × (release_job held 1 ≡ inr after)
    × (get 2 after.jobs ≡ (
        if 2 == 1
        then some (with_state first_pending JobState.pending StatusReason.no_reason)
        else get 2 submitted_controller.jobs))
    × (after.queue
        ≡ enqueue
            (with_state first_pending JobState.pending StatusReason.no_reason)
            (remove 1 submitted_controller.queue))
release-hold_example = release-hold submitted_controller 1 2 first_pending refl refl

-- The first job runs on worker 5 and has used up its retries.
abbrev last_try : JobRecord
last_try = record (with_state (job_of 1) JobState.running StatusReason.no_reason) {
  assigned_worker_id = some 5;
  retry_count = 1;
}

abbrev pub running_controller : Controller
running_controller = record reserved_controller {
  jobs = (1, last_try) ∷ (2, job_of 2) ∷ [];
  queue = [];
}
