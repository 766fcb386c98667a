-- ===== src/Controller/Nodes.antt =====
-- local.py, register_node, heartbeat_node, evaluate_node_failures, _recover_dead_node_jobs,
-- list_dead_letters. The telemetry of the cluster monitor is left out.
use hexaqueue.Prelude.{
  ℕ, ◌+◌, ◌-◌, Bool, true, false, ◌&&◌, ◌||◌, Option, none, some, List, [], ◌∷◌, ◌++◌, inl, inr,
  if◌then◌else◌, ltb, ◌==◌,
}
use hexaqueue.Prelude.Lists.{filter}
use hexaqueue.Prelude.Dict.{Dict, get, put, values}
use hexaqueue.Lifecycle.{JobState, TerminalOutcome}
use hexaqueue.Placement.{set_of}
use hexaqueue.Placement.Node.{
  ComputeNodeProfile, NodeHealthState, is_healthy, set_add, touch_heartbeat, mark_dead,
  mark_drained, mark_unhealthy,
}
use hexaqueue.Controller.{
  Controller, JobRecord, DeadLetterRecord, StatusReason, with_state, with_outcome, in_state,
  enqueue, Answer, ControllerError,
}
use hexaqueue.Controller.Runs.{put_job, advance_run_of}

unfoldable pub register_node : ComputeNodeProfile → Controller → Controller
register_node profile c = record c { nodes = put profile.node_id profile c.nodes }

-- `a | b` on sets
unfoldable pub union : List ℕ → List ℕ → List ℕ
unfolding set_add
union xs [] = xs
union xs (y ∷ ys) = set_add y (union xs ys)

abbrev with_active : Option (List ℕ) → ComputeNodeProfile → ComputeNodeProfile
with_active none n = n
with_active (some ids) n = record n { active_job_ids = set_of ids }

abbrev with_cached : Option (List ℕ) → ComputeNodeProfile → ComputeNodeProfile
with_cached none n = n
with_cached (some hashes) n = record n {
  cached_collateral_hashes = union n.cached_collateral_hashes hashes;
}

unfoldable pub heartbeat_node :
    ℕ → Controller → ℕ → Option (List ℕ) → Option (List ℕ) → Answer Controller
unfolding touch_heartbeat set_of union
heartbeat_node now c worker_id active_job_ids cached_hashes = elim (get worker_id c.nodes) [
  | none ↦ inl ControllerError.node_not_found
  | some current ↦ inr (record c {
    nodes =
        put worker_id
          (with_cached cached_hashes (with_active active_job_ids (touch_heartbeat current now)))
          c.nodes;
  })
]

-- `assigned_worker_id == node_id` and a state in (PROVISIONING, RUNNING, PENDING)
abbrev pub is_assigned : ℕ → Option ℕ → Bool
is_assigned node_id none = false
is_assigned node_id (some worker_id) = worker_id == node_id

unfoldable pub is_in_flight : ℕ → JobRecord → Bool
is_in_flight node_id j =
    is_assigned node_id j.assigned_worker_id
    && (in_state JobState.provisioning j
        || (in_state JobState.running j || in_state JobState.pending j))

abbrev pub requeued : JobRecord → JobRecord
requeued job = record (with_state job JobState.pending StatusReason.retry_auto) {
  assigned_worker_id = none;
  retry_count = job.retry_count + 1;
}

abbrev pub exhausted : JobRecord → JobRecord
exhausted job = record (with_outcome job TerminalOutcome.failed StatusReason.max_retries_exceeded) {
  assigned_worker_id = none;
}

abbrev pub dead_letter : ℕ → ℕ → JobRecord → DeadLetterRecord
dead_letter node_id now job = record {
  job_id = job.spec.id;
  last_worker_id = node_id;
  retry_count = job.retry_count;
  run_id = job.run_id;
  timestamp = now;
}

-- The body of the loop over the jobs in flight.
unfoldable pub recover_job : ℕ → ℕ → JobRecord → Controller → Controller
unfolding advance_run_of enqueue
recover_job node_id now job c =
    if ltb job.retry_count job.max_retries
    then record (put_job job.spec.id (requeued job) c) { queue = enqueue (requeued job) c.queue }
    else advance_run_of job.run_id (record (put_job job.spec.id (exhausted job) c) {
      dead_letters = c.dead_letters ++ dead_letter node_id now job ∷ [];
    })

unfoldable pub recover_each : ℕ → ℕ → List JobRecord → Controller → Controller
unfolding recover_job
recover_each node_id now [] c = c
recover_each node_id now (job ∷ jobs) c =
    recover_each node_id now jobs (recover_job node_id now job c)

unfoldable pub recover_dead_node_jobs : ℕ → ℕ → Controller → Controller
unfolding recover_each is_in_flight
recover_dead_node_jobs node_id now c =
    recover_each node_id now (filter (is_in_flight node_id) (values c.jobs)) c

-- Neither DEAD nor DRAINED.
abbrev pub is_alive : NodeHealthState → Bool
is_alive NodeHealthState.dead = false
is_alive NodeHealthState.drained = false
is_alive _ = true

abbrev pub put_node : ℕ → ComputeNodeProfile → Controller → Controller
put_node node_id profile c = record c { nodes = put node_id profile c.nodes }

-- The body of the loop over the nodes: the controller and the nodes declared dead.
unfoldable pub evaluate_node :
    ℕ
    → ℕ
    → ℕ
    → ℕ
    → ComputeNodeProfile
    → Controller × List ComputeNodeProfile
    → Controller × List ComputeNodeProfile
unfolding recover_dead_node_jobs mark_dead mark_drained mark_unhealthy
evaluate_node now timeout_unhealthy timeout_dead node_id profile (c, dead_nodes) =
    let elapsed = now - profile.last_heartbeat_at in
    let dead_profile = mark_dead profile now in
    let drained_profile = mark_drained dead_profile now in
    if ltb timeout_dead elapsed && is_alive profile.health_state
    then (
      put_node node_id drained_profile
          (recover_dead_node_jobs node_id now (put_node node_id dead_profile c)),
      dead_nodes ++ drained_profile ∷ [],
    )
    else if ltb timeout_unhealthy elapsed && is_healthy profile.health_state
    then (put_node node_id (mark_unhealthy profile now) c, dead_nodes)
    else (c, dead_nodes)

unfoldable pub evaluate_nodes :
    ℕ
    → ℕ
    → ℕ
    → Dict ComputeNodeProfile
    → Controller × List ComputeNodeProfile
    → Controller × List ComputeNodeProfile
unfolding evaluate_node
evaluate_nodes now timeout_unhealthy timeout_dead [] r = r
evaluate_nodes now timeout_unhealthy timeout_dead ((node_id, profile) ∷ nodes) r =
    evaluate_nodes now timeout_unhealthy timeout_dead nodes
      (evaluate_node now timeout_unhealthy timeout_dead node_id profile r)

unfoldable pub evaluate_node_failures :
    ℕ → ℕ → ℕ → Controller → Controller × List ComputeNodeProfile
unfolding evaluate_nodes
evaluate_node_failures now timeout_unhealthy timeout_dead c =
    evaluate_nodes now timeout_unhealthy timeout_dead c.nodes (c, [])
