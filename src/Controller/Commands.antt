-- ===== src/Controller/Commands.antt =====
-- local.py: the calls of the controller as commands, and histories of calls. A call that raises
-- leaves the controller as it was.
use hexaqueue.Prelude.{ℕ, ◌≤◌, ◌≡◌, true, Option, none, List, [], ◌∷◌, inl, inr, Bool}
use hexaqueue.Prelude.Lists.{All}
use hexaqueue.Prelude.Dict.{Dict}
use hexaqueue.Prelude.Int.{ℤ}
use hexaqueue.Lifecycle.{JobState, TerminalOutcome, status_valid}
use hexaqueue.Placement.Node.{ComputeNodeProfile}
use hexaqueue.Controller.{
  Controller, JobRecord, RunSubmission, Answer, CostModel, in_state, check_leadership,
}
use hexaqueue.Controller.Runs.{submit_run, update_job_outcome, cancel_run}
use hexaqueue.Controller.Jobs.{cancel_job, hold_job, release_job, schedule_placement}
use hexaqueue.Controller.Nodes.{register_node, heartbeat_node, evaluate_node_failures}
use hexaqueue.Controller.Rewind.{rewind_run}

pub data Command : Type 0 where
  submit : RunSubmission → Command
  report :
      (now job_id : ℕ) (outcome : TerminalOutcome) (reason walltime : Option ℕ)
      (consumed : Option ℤ)
      → Command
  cancel_one : (now job_id : ℕ) → Command
  cancel_all : (now run_id : ℕ) → Command
  hold : (job_id : ℕ) → Command
  release : (job_id : ℕ) → Command
  register : ComputeNodeProfile → Command
  heartbeat : (now worker_id : ℕ) (active cached : Option (List ℕ)) → Command
  audit : (now timeout_unhealthy timeout_dead : ℕ) → Command
  schedule :
      (now hold_id burst_backlog_threshold : ℕ) (hash_map : Option (Dict ℕ)) (job_id : ℕ) → Command
  rewind : (run_id : ℕ) (target_job_ids : List ℕ) → Command

-- The controller of an answer that carries more.
abbrev pub without_result : {A : Type 0} → Answer (A × Controller) → Answer Controller
without_result (inl e) = inl e
without_result (inr (_, c)) = inr c

-- The controller after a call.
abbrev pub after : Controller → Answer Controller → Controller
after c (inl e) = c
after c (inr c') = c'

module _ (model : Option CostModel) (violates : JobRecord → Bool) where
  unfoldable pub execute : Command → Controller → Answer Controller
  unfolding submit_run update_job_outcome cancel_job cancel_run hold_job release_job register_node
      heartbeat_node evaluate_node_failures schedule_placement rewind_run
  execute (submit submission) c = submit_run violates c submission
  execute (report now job_id outcome reason walltime consumed) c =
      update_job_outcome model now c job_id outcome reason walltime consumed
  execute (cancel_one now job_id) c = cancel_job model now c job_id
  execute (cancel_all now run_id) c = cancel_run model now c run_id
  execute (hold job_id) c = hold_job c job_id
  execute (release job_id) c = release_job c job_id
  execute (register profile) c = inr (register_node profile c)
  execute (heartbeat now worker_id active cached) c = heartbeat_node now c worker_id active cached
  execute (audit now timeout_unhealthy timeout_dead) c =
      inr (evaluate_node_failures now timeout_unhealthy timeout_dead c).0
  execute (schedule now hold_id threshold hash_map job_id) c =
      without_result (schedule_placement model now hold_id threshold hash_map c job_id)
  execute (rewind run_id target_job_ids) c = without_result (rewind_run c run_id target_job_ids)

  -- Calls with what the election says at each.
  unfoldable pub run : List (Option Bool × Command) → Controller → Controller
  unfolding execute check_leadership
  run [] c = c
  run ((leads, command) ∷ commands) c =
      run commands (after c (check_leadership leads (execute command c)))

-- A submission brings jobs with valid statuses, no retries beyond their policies, and no worker while
-- they are submitted.
abbrev pub IsFresh : JobRecord → Type 0
IsFresh job =
    (status_valid job.status ≡ true)
    × (job.retry_count ≤ job.max_retries)
    × (in_state JobState.submitted job ≡ true → job.assigned_worker_id ≡ none)

abbrev pub BringsFresh : Command → Type 0
BringsFresh (submit submission) = All IsFresh submission.jobs
BringsFresh _ = Unit
