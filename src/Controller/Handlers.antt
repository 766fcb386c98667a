-- ===== src/Controller/Handlers.antt =====
-- local.py: the handlers of the calls, one by one.
use hexaqueue.Prelude.{
  ℕ, ◌≡◌, refl, sym, subst, inl, inr, true, false, Option, none, some, List, [], ◌==◌, Bool, not,
  is_some, ◌&&◌, on_option, on_if,
}
use hexaqueue.Prelude.Lists.{All, All-filter, any}
use hexaqueue.Prelude.Dict.{Dict, get, put, Unique-put}
use hexaqueue.Prelude.Int.{ℤ}
use hexaqueue.Lifecycle.{JobState, TerminalOutcome, status_valid}
use hexaqueue.Dag.Sorting.{validate_and_topological_sort}
use hexaqueue.Placement.{set_of}
use hexaqueue.Budget.Reservation.{returned, raised, quota_exceeded}
use hexaqueue.Budget.Ledger.{Ledger, Outcome}
use hexaqueue.Controller.{
  Controller, JobRecord, RunSubmission, StatusReason, with_state, in_state, enqueue, remove,
  CostModel, Answer, ControllerError,
}
use hexaqueue.Controller.Budgets.{reserve_with, record_reservation, ensure_budget_reservation}
use hexaqueue.Controller.Runs.{
  job_ids, update_job_outcome, cancel_stored, cancel_run, build_dag, submit_run,
}
use hexaqueue.Controller.Jobs.{
  cancel_job, hold_job, release_job, is_held, apply_placement_assignment, place_reserved, place_job,
  schedule_placement,
}
use hexaqueue.Controller.Nodes.{heartbeat_node}
use hexaqueue.Controller.Sound.{
  IsSoundJob, IsSound, put-AreSound, with_state-IsSoundJob, enqueue-pending, advance_run_of-IsSound,
}
use hexaqueue.Controller.Invariant.{
  put_job-IsSound, record_outcome-IsSound, cancel_stored-IsSound, cancel_each-IsSound,
  enqueue_initial_jobs-IsSound,
}
use hexaqueue.Controller.Answers.{AnswerSound, ResultSound}
use hexaqueue.Controller.Commands.{IsFresh, without_result}

pub submit-AnswerSound :
    (violates : JobRecord → Bool) (c : Controller) (submission : RunSubmission)
    → All IsFresh submission.jobs
    → IsSound c
    → AnswerSound (submit_run violates c submission)
unfolding submit_run
submit-AnswerSound violates c submission h i =
    on_if AnswerSound (is_some (get submission.id c.runs)) (inl ControllerError.run_registered) _ tt
      (on_if AnswerSound (any (λ j. is_some (get j.spec.id c.jobs)) submission.jobs)
        (inl ControllerError.job_registered) _ tt
        (on_option AnswerSound (build_dag submission.dependencies [])
          (inl ControllerError.self_dependency) _ tt
          λ dag e.
            on_option AnswerSound (validate_and_topological_sort dag (set_of (job_ids submission)))
              (inl ControllerError.dependency_cycle) _ tt
              λ order f.
                enqueue_initial_jobs-IsSound violates submission dag
                  (record c {
                    runs = put submission.id submission c.runs;
                    dag_engines = put submission.id dag c.dag_engines;
                  })
                  h
                  (record {
                    jobs_sound = i.jobs_sound;
                    unique = i.unique;
                    queue_pending = i.queue_pending;
                  })))

pub report-AnswerSound :
    (model : Option CostModel) (now : ℕ) (c : Controller) (job_id : ℕ) (outcome : TerminalOutcome)
    (reason walltime : Option ℕ) (consumed : Option ℤ)
    → IsSound c
    → AnswerSound (update_job_outcome model now c job_id outcome reason walltime consumed)
unfolding update_job_outcome
report-AnswerSound model now c job_id outcome reason walltime consumed i =
    on_option AnswerSound (get job_id c.jobs) (inl ControllerError.job_not_found) _ tt λ current e.
      record_outcome-IsSound model now c job_id current outcome reason walltime consumed e i

pub cancel-AnswerSound :
    (model : Option CostModel) (now : ℕ) (c : Controller) (job_id : ℕ)
    → IsSound c
    → AnswerSound (cancel_job model now c job_id)
unfolding cancel_job
cancel-AnswerSound model now c job_id i =
    on_option AnswerSound (get job_id c.jobs) (inl ControllerError.job_not_found) _ tt λ current e.
      on_if AnswerSound (not (in_state JobState.done current)) _ (inr c)
        (advance_run_of-IsSound current.run_id
          (cancel_stored model now StatusReason.job_cancelled job_id current c)
          (cancel_stored-IsSound model now StatusReason.job_cancelled job_id current c e i))
        i

pub cancel_run-AnswerSound :
    (model : Option CostModel) (now : ℕ) (c : Controller) (run_id : ℕ)
    → IsSound c
    → AnswerSound (cancel_run model now c run_id)
unfolding cancel_run
cancel_run-AnswerSound model now c run_id i =
    on_option AnswerSound (get run_id c.runs) (inl ControllerError.run_not_found) _ tt
      λ submission e. cancel_each-IsSound model now (job_ids submission) c i

pub hold-AnswerSound : (c : Controller) (job_id : ℕ) → IsSound c → AnswerSound (hold_job c job_id)
unfolding hold_job remove status_valid
hold-AnswerSound c job_id i =
    on_option AnswerSound (get job_id c.jobs) (inl ControllerError.job_not_found) _ tt λ current e.
      on_if AnswerSound (in_state JobState.pending current) _ (inr c)
        (put_job-IsSound job_id
          (with_state current JobState.blocked StatusReason.administratively_held)
          (remove job_id c.queue) c
          (with_state-IsSoundJob job_id current JobState.blocked StatusReason.administratively_held
            refl refl (i.jobs_sound job_id current e))
          (All-filter (λ j. in_state JobState.pending j ≡ true) (λ j. not (j.spec.id == job_id))
            c.queue i.queue_pending)
          i)
        i

pub release-AnswerSound :
    (c : Controller) (job_id : ℕ) → IsSound c → AnswerSound (release_job c job_id)
unfolding release_job status_valid
release-AnswerSound c job_id i =
    on_option AnswerSound (get job_id c.jobs) (inl ControllerError.job_not_found) _ tt λ current e.
      let released : JobRecord = with_state current JobState.pending StatusReason.no_reason in
      on_if AnswerSound (in_state JobState.blocked current && is_held current.reason) _ (inr c)
        (put_job-IsSound job_id released (enqueue released c.queue) c
          (with_state-IsSoundJob job_id current JobState.pending StatusReason.no_reason refl refl
            (i.jobs_sound job_id current e))
          (enqueue-pending released c.queue refl i.queue_pending) i)
        i

pub heartbeat-AnswerSound :
    (now : ℕ) (c : Controller) (worker_id : ℕ) (active cached : Option (List ℕ))
    → IsSound c
    → AnswerSound (heartbeat_node now c worker_id active cached)
unfolding heartbeat_node
heartbeat-AnswerSound now c worker_id active cached i =
    on_option AnswerSound (get worker_id c.nodes) (inl ControllerError.node_not_found) _ tt
      λ current e. record {
        jobs_sound = i.jobs_sound;
        unique = i.unique;
        queue_pending = i.queue_pending;
      }

assign-IsSound :
    (job : JobRecord) (c : Controller) (choice : Option ℕ)
    → IsSoundJob job.spec.id job
    → IsSound c
    → IsSound (elim choice [ none ↦ c | some node_id ↦ apply_placement_assignment job node_id c ])
unfolding apply_placement_assignment status_valid
assign-IsSound job c none s i = i
assign-IsSound job c (some node_id) s i = record {
  jobs_sound =
      put-AreSound job.spec.id _ c.jobs
        (record { valid = refl; keyed = refl; bounded = s.bounded; unassigned = λ n. cc n })
        i.jobs_sound;
  unique = Unique-put job.spec.id _ c.jobs i.unique;
  queue_pending = i.queue_pending;
}

reserve-AnswerSound :
    (c : Controller) (job : JobRecord) (o : Outcome ℕ)
    → IsSoundJob job.spec.id job
    → IsSound c
    → AnswerSound (without_result (record_reservation c job o))
unfolding record_reservation status_valid
reserve-AnswerSound c job (returned res, l) s i = record {
  jobs_sound = i.jobs_sound;
  unique = i.unique;
  queue_pending = i.queue_pending;
}
reserve-AnswerSound c job (raised quota_exceeded, l) s i =
    put_job-IsSound job.spec.id (with_state job JobState.blocked StatusReason.budget_exhausted)
      c.queue c
      (with_state-IsSoundJob job.spec.id job JobState.blocked StatusReason.budget_exhausted refl
        refl s)
      i.queue_pending i
reserve-AnswerSound c job (raised _, l) s i = tt

reserve_with-ResultSound :
    (model : Option CostModel) (now hold_id : ℕ) (c : Controller) (job : JobRecord)
    (port : Option Ledger)
    → IsSoundJob job.spec.id job
    → IsSound c
    → ResultSound (reserve_with model now hold_id c job port)
unfolding reserve_with
reserve_with-ResultSound model now hold_id c job none s i = i
reserve_with-ResultSound model now hold_id c job (some l) s i =
    on_if ResultSound (is_some (get job.spec.id c.job_reservations)) (inr (false, c)) _ i
      (reserve-AnswerSound c job _ s i)

place_reserved-ResultSound :
    (threshold : ℕ) (hash_map : Option (Dict ℕ)) (job : JobRecord) (r : Answer (Bool × Controller))
    → IsSoundJob job.spec.id job
    → ResultSound r
    → ResultSound (place_reserved threshold hash_map job r)
unfolding place_reserved place_job
place_reserved-ResultSound threshold hash_map job (inl e) s i = tt
place_reserved-ResultSound threshold hash_map job (inr (true, c)) s i = i
place_reserved-ResultSound threshold hash_map job (inr (false, c)) s i = assign-IsSound job c _ s i

pub schedule-ResultSound :
    (model : Option CostModel) (now hold_id threshold : ℕ) (hash_map : Option (Dict ℕ))
    (c : Controller) (job_id : ℕ)
    → IsSound c
    → ResultSound (schedule_placement model now hold_id threshold hash_map c job_id)
unfolding schedule_placement ensure_budget_reservation
schedule-ResultSound model now hold_id threshold hash_map c job_id i =
    on_option ResultSound (get job_id c.jobs) (inl ControllerError.job_not_found) _ tt λ job e.
      let here : IsSoundJob job_id job = i.jobs_sound job_id job e in
      let own : IsSoundJob job.spec.id job = subst (λ n. IsSoundJob n job) (sym here.keyed) here in
      place_reserved-ResultSound threshold hash_map job _ own
        (reserve_with-ResultSound model now hold_id c job c.budget_port own i)
