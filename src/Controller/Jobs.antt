-- ===== src/Controller/Jobs.antt =====
-- local.py, cancel_job, hold_job, release_job, schedule_placement.
use hexaqueue.Prelude.{ℕ, Bool, true, false, not, ◌&&◌, Option, none, some, inl, inr, if◌then◌else◌}
use hexaqueue.Prelude.Lists.{length, filter}
use hexaqueue.Prelude.Dict.{Dict, get, put, values}
use hexaqueue.Lifecycle.{JobState}
use hexaqueue.Placement.{PlacementDecision, evaluate_placement}
use hexaqueue.Placement.Node.{ComputeNodeProfile, set_add}
use hexaqueue.Controller.{
  Controller, JobRecord, StatusReason, with_state, in_state, enqueue, remove, Answer,
  ControllerError, CostModel,
}
use hexaqueue.Controller.Budgets.{ensure_budget_reservation}
use hexaqueue.Controller.Runs.{put_job, cancel_stored, advance_run_of}

unfoldable pub cancel_job : Option CostModel → ℕ → Controller → ℕ → Answer Controller
unfolding cancel_stored advance_run_of
cancel_job model now c job_id = elim (get job_id c.jobs) [
  | none ↦ inl ControllerError.job_not_found
  | some current ↦
      if not (in_state JobState.done current)
      then inr (
          advance_run_of current.run_id
            (cancel_stored model now StatusReason.job_cancelled job_id current c))
      else inr c
]

unfoldable pub hold_job : Controller → ℕ → Answer Controller
unfolding remove
hold_job c job_id = elim (get job_id c.jobs) [
  | none ↦ inl ControllerError.job_not_found
  | some current ↦
      if in_state JobState.pending current
      then inr
          (record (put_job job_id
            (with_state current JobState.blocked StatusReason.administratively_held) c) {
              queue = remove job_id c.queue;
            })
      else inr c
]

abbrev pub is_held : StatusReason → Bool
is_held StatusReason.administratively_held = true
is_held _ = false

unfoldable pub release_job : Controller → ℕ → Answer Controller
unfolding enqueue
release_job c job_id = elim (get job_id c.jobs) [
  | none ↦ inl ControllerError.job_not_found
  | some current ↦
      let released_job = with_state current JobState.pending StatusReason.no_reason in
      if in_state JobState.blocked current && is_held current.reason
      then inr (record (put_job job_id released_job c) { queue = enqueue released_job c.queue })
      else inr c
]

-- `if assigned_node_id in self._nodes:`
unfoldable pub bind_node : ℕ → ℕ → Dict ComputeNodeProfile → Dict ComputeNodeProfile
unfolding set_add
bind_node job_id node_id nodes = elim (get node_id nodes) [
  | none ↦ nodes
  | some node ↦
      put node_id (record node { active_job_ids = set_add job_id node.active_job_ids }) nodes
]

unfoldable pub apply_placement_assignment : JobRecord → ℕ → Controller → Controller
unfolding bind_node
apply_placement_assignment job node_id c = record c {
  jobs =
      put job.spec.id
        (record (with_state job JobState.provisioning StatusReason.no_reason) {
          assigned_worker_id = some node_id;
        })
        c.jobs;
  nodes = bind_node job.spec.id node_id c.nodes;
}

-- The job as it was before the budget was held is placed.
unfoldable pub place_job :
    ℕ → Option (Dict ℕ) → JobRecord → Controller → PlacementDecision × Controller
unfolding evaluate_placement apply_placement_assignment
place_job burst_backlog_threshold hash_map job c =
    let backlog_size = length (filter (in_state JobState.pending) (values c.jobs)) in
    let decision =
      evaluate_placement burst_backlog_threshold job.spec (values c.nodes) hash_map backlog_size in
    (
      decision,
      elim decision.selected_node_id [
        | none ↦ c
        | some node_id ↦ apply_placement_assignment job node_id c
      ],
    )

-- Without a decision, the job was blocked for want of credit.
unfoldable pub place_reserved :
    ℕ
    → Option (Dict ℕ)
    → JobRecord
    → Answer (Bool × Controller)
    → Answer (Option PlacementDecision × Controller)
unfolding place_job
place_reserved burst_backlog_threshold hash_map job (inl e) = inl e
place_reserved burst_backlog_threshold hash_map job (inr (true, c)) = inr (none, c)
place_reserved burst_backlog_threshold hash_map job (inr (false, c)) =
    let (decision, c') = place_job burst_backlog_threshold hash_map job c in inr (some decision, c')

unfoldable pub schedule_placement :
    Option CostModel
    → ℕ
    → ℕ
    → ℕ
    → Option (Dict ℕ)
    → Controller
    → ℕ
    → Answer (Option PlacementDecision × Controller)
unfolding ensure_budget_reservation place_reserved
schedule_placement model now hold_id burst_backlog_threshold hash_map c job_id =
    elim (get job_id c.jobs) [
      | none ↦ inl ControllerError.job_not_found
      | some job ↦
          place_reserved burst_backlog_threshold hash_map job
            (ensure_budget_reservation model now hold_id c job)
    ]
