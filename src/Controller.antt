-- ===== src/Controller.antt =====
-- packages/hexaqueue_server/src/hexaqueue_server/adapters/local.py, class
-- LocalSchedulerControllerAdapter: the controller that holds runs, jobs and nodes in memory. The
-- queue is that of packages/hexaqueue_core/src/hexaqueue_core/adapters/queue/in_memory.py, the budget
-- port the ledger of Budget. Notifications and collateral bundles are left out. Identifiers of jobs,
-- runs, workers and tenants are numbers; the clock and fresh identifiers are arguments.
pub mod Advance
pub mod Passes
pub mod Settling
pub mod Rounds
pub mod Settled
pub mod Budgets
pub mod Runs
pub mod Jobs
pub mod Nodes
pub mod Rewind
pub mod Sound
pub mod Commands
pub mod Invariant
pub mod Recovery
pub mod Answers
pub mod Handlers
pub mod Rewinding
pub mod Histories
pub mod Outcomes
pub mod Evacuation
pub mod Queued
pub mod Recovered
pub mod Legality
pub mod Refinement
pub mod Machine
pub mod Status
pub mod Counts
pub mod Holds
pub mod Examples
pub mod Defects
use hexaqueue.Prelude.{
  ℕ, Bool, true, false, Option, none, some, List, [], ◌∷◌, ◌++◌, ◌⊎◌, inl, inr, not, ◌==◌,
  if◌then◌else◌,
}
use hexaqueue.Prelude.Lists.{filter}
use hexaqueue.Prelude.Dict.{Dict}
use hexaqueue.Prelude.Int.{ℤ}
use hexaqueue.Job.{JobSpec}
use hexaqueue.Lifecycle.{JobState, JobStatus, TerminalOutcome, same_state}
use hexaqueue.Dag.{Dependencies}
use hexaqueue.Placement.Node.{ComputeNodeProfile}
use hexaqueue.Budget.Ledger.{Ledger}

-- The texts that the controller writes as reasons; `reported` is what a caller gave.
pub data StatusReason : Type 0 where
  no_reason administratively_held upstream_failed free_tier_exceeded budget_exhausted run_cancelled
        job_cancelled dag_rewind retry_auto max_retries_exceeded :
      StatusReason
  reported : Option ℕ → StatusReason

-- The fields of a stored job that change, with those of its specification that stay;
-- `tenant_id` is what `_resolve_job_tenant` reads off its tags, user and environment.
pub record JobRecord : Type 0 where
  pub spec : JobSpec
  pub run_id : ℕ
  pub tenant_id : ℕ
  pub max_retries : ℕ
  pub status : JobStatus
  pub reason : StatusReason
  pub assigned_worker_id : Option ℕ
  pub retry_count : ℕ

abbrev pub with_state : JobRecord → JobState → StatusReason → JobRecord
with_state j s why = record j { status = record { state = s; outcome = none }; reason = why }

abbrev pub with_outcome : JobRecord → TerminalOutcome → StatusReason → JobRecord
with_outcome j o why = record j {
  status = record { state = JobState.done; outcome = some o };
  reason = why;
}

abbrev pub in_state : JobState → JobRecord → Bool
in_state s j = same_state j.status.state s

-- A submission: its jobs as given, and their dependencies by child.
pub record RunSubmission : Type 0 where
  pub id : ℕ
  pub jobs : List JobRecord
  pub dependencies : Dict (List ℕ)

pub record DeadLetterRecord : Type 0 where
  pub job_id : ℕ
  pub last_worker_id : ℕ
  pub retry_count : ℕ
  pub run_id : ℕ
  pub timestamp : ℕ

-- InMemoryJobQueueAdapter
abbrev pub Queue : Type 0
Queue = List JobRecord

unfoldable pub enqueue : JobRecord → Queue → Queue
enqueue job queue = queue ++ job ∷ []

unfoldable pub dequeue : Queue → Option JobRecord × Queue
dequeue [] = (none, [])
dequeue (job ∷ queue) = (some job, queue)

unfoldable pub remove : ℕ → Queue → Queue
remove job_id queue = filter (λ j. not (j.spec.id == job_id)) queue

pub record Controller : Type 0 where
  pub queue : Queue
  pub budget_port : Option Ledger
  pub job_reservations : Dict ℕ
  pub runs : Dict RunSubmission
  pub jobs : Dict JobRecord
  pub dag_engines : Dict Dependencies
  pub nodes : Dict ComputeNodeProfile
  pub dead_letters : List DeadLetterRecord

-- What the controller raises.
pub data ControllerError : Type 0 where
  standby run_registered job_registered self_dependency dependency_cycle run_not_found dag_not_found
        job_not_found node_not_found budget_error key_error :
      ControllerError

-- A call raises, and leaves the controller alone, or returns.
abbrev pub Answer : Type 0 → Type 0
Answer A = ControllerError ⊎ A

-- `_check_leadership`: without an election, every controller leads.
unfoldable pub check_leadership : {A : Type 0} → Option Bool → Answer A → Answer A
check_leadership none answer = answer
check_leadership (some is_leader) answer = if is_leader then answer else inl ControllerError.standby

-- CostRateModelPort
pub record CostModel : Type 0 where
  pub calculate_estimated_cost : JobSpec → ℤ
  pub calculate_actual_cost : ℕ → JobSpec → ℤ
