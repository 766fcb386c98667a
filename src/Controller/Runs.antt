-- ===== src/Controller/Runs.antt =====
-- local.py, submit_run, _enqueue_initial_jobs, update_job_outcome, cancel_run. `violates` stands for
-- `_check_free_tier_violation`.
use hexaqueue.Prelude.{
  ℕ, Bool, not, ◌||◌, Option, none, some, List, [], ◌∷◌, map, inl, inr, if◌then◌else◌, is_some,
}
use hexaqueue.Prelude.Lists.{any}
use hexaqueue.Prelude.Dict.{Dict, get, put}
use hexaqueue.Prelude.Int.{ℤ}
use hexaqueue.Lifecycle.{JobState, TerminalOutcome}
use hexaqueue.Dag.{Dependencies, TriggerCondition, add_dependency, is_job_ready}
use hexaqueue.Dag.Sorting.{validate_and_topological_sort}
use hexaqueue.Placement.{set_of}
use hexaqueue.Controller.{
  Controller, JobRecord, RunSubmission, StatusReason, with_state, with_outcome, in_state, enqueue,
  remove, Answer, ControllerError, CostModel,
}
use hexaqueue.Controller.Advance.{advance_dependents}
use hexaqueue.Controller.Budgets.{settle_or_release_job_budget}

abbrev pub job_ids : RunSubmission → List ℕ
job_ids submission = map (λ j. j.spec.id) submission.jobs

-- `self._jobs[job_id] = job`
abbrev pub put_job : ℕ → JobRecord → Controller → Controller
put_job job_id job c = record c { jobs = put job_id job c.jobs }

-- `_advance_dependents` on the controller.
unfoldable pub advance_run : RunSubmission → Dependencies → Controller → Controller
unfolding advance_dependents
advance_run submission dag c =
    let p = advance_dependents dag (job_ids submission) c.jobs c.queue in
    record c { jobs = p.jobs; queue = p.queue }

-- The two loops that fill the graph; `none` is the ValueError on a self-dependency.
unfoldable pub add_parents : ℕ → List ℕ → Dependencies → Option Dependencies
unfolding add_dependency
add_parents child [] dag = some dag
add_parents child (parent ∷ parents) dag =
    elim (add_dependency dag child parent TriggerCondition.after_ok) [
      | none ↦ none
      | some dag' ↦ add_parents child parents dag'
    ]

unfoldable pub build_dag : Dict (List ℕ) → Dependencies → Option Dependencies
unfolding add_parents
build_dag [] dag = some dag
build_dag ((child, parents) ∷ rest) dag = elim (add_parents child parents dag) [
  | none ↦ none
  | some dag' ↦ build_dag rest dag'
]

-- The body of the loop over the submitted jobs.
unfoldable pub enqueue_initial :
    (JobRecord → Bool) → Dependencies → JobRecord → Controller → Controller
enqueue_initial violates dag job c =
    let pending_job = with_state job JobState.pending StatusReason.no_reason in
    if violates job
    then put_job job.spec.id (with_state job JobState.blocked StatusReason.free_tier_exceeded) c
    else if is_job_ready dag job.spec.id []
    then record (put_job job.spec.id pending_job (put_job job.spec.id job c)) {
      queue = enqueue pending_job c.queue;
    }
    else put_job job.spec.id job c

unfoldable pub enqueue_each :
    (JobRecord → Bool) → Dependencies → List JobRecord → Controller → Controller
unfolding enqueue_initial
enqueue_each violates dag [] c = c
enqueue_each violates dag (job ∷ jobs) c =
    enqueue_each violates dag jobs (enqueue_initial violates dag job c)

unfoldable pub enqueue_initial_jobs :
    (JobRecord → Bool) → RunSubmission → Dependencies → Controller → Controller
unfolding enqueue_each advance_run
enqueue_initial_jobs violates submission dag c =
    let c' = enqueue_each violates dag submission.jobs c in
    if any violates submission.jobs then advance_run submission dag c' else c'

unfoldable pub submit_run : (JobRecord → Bool) → Controller → RunSubmission → Answer Controller
unfolding build_dag validate_and_topological_sort enqueue_initial_jobs
submit_run violates c submission =
    if is_some (get submission.id c.runs)
    then inl ControllerError.run_registered
    else if any (λ j. is_some (get j.spec.id c.jobs)) submission.jobs
    then inl ControllerError.job_registered
    else elim (build_dag submission.dependencies []) [
      | none ↦ inl ControllerError.self_dependency
      | some dag ↦ elim (validate_and_topological_sort dag (set_of (job_ids submission))) [
        | none ↦ inl ControllerError.dependency_cycle
        | some order ↦ inr (
            enqueue_initial_jobs violates submission dag (record c {
              runs = put submission.id submission c.runs;
              dag_engines = put submission.id dag c.dag_engines;
            }))
      ]
    ]

-- `if run_id in self._runs:` with the graph of the run.
unfoldable pub advance_run_of : ℕ → Controller → Controller
unfolding advance_run
advance_run_of run_id c = elim (get run_id c.runs) [
  | none ↦ c
  | some submission ↦ elim (get run_id c.dag_engines) [
    | none ↦ c
    | some dag ↦ advance_run submission dag c
  ]
]

-- The part of `update_job_outcome` behind the look-up.
unfoldable pub record_outcome :
    Option CostModel
    → ℕ
    → Controller
    → ℕ
    → JobRecord
    → TerminalOutcome
    → Option ℕ
    → Option ℕ
    → Option ℤ
    → Controller
unfolding settle_or_release_job_budget advance_run_of
record_outcome model now c job_id current outcome reason walltime_seconds consumed_credits =
    advance_run_of current.run_id (
      settle_or_release_job_budget model now
        (put_job job_id (with_outcome current outcome (StatusReason.reported reason)) c) job_id
        outcome walltime_seconds consumed_credits)

unfoldable pub update_job_outcome :
    Option CostModel
    → ℕ
    → Controller
    → ℕ
    → TerminalOutcome
    → Option ℕ
    → Option ℕ
    → Option ℤ
    → Answer Controller
unfolding record_outcome
update_job_outcome model now c job_id outcome reason walltime_seconds consumed_credits =
    elim (get job_id c.jobs) [
      | none ↦ inl ControllerError.job_not_found
      | some current ↦ inr (
          record_outcome model now c job_id current outcome reason walltime_seconds
            consumed_credits)
    ]

-- `0.0 if current.state in (PENDING, PROVISIONING, SUBMITTED) else 1.0`, in seconds.
unfoldable pub cancelled_walltime : JobRecord → Option ℕ
cancelled_walltime current =
    if in_state JobState.pending current
      || (in_state JobState.provisioning current || in_state JobState.submitted current)
    then some 0
    else some 1

-- What `cancel_run` and `cancel_job` do to a job that is not done.
unfoldable pub cancel_stored :
    Option CostModel → ℕ → StatusReason → ℕ → JobRecord → Controller → Controller
unfolding settle_or_release_job_budget cancelled_walltime
cancel_stored model now why job_id current c =
    settle_or_release_job_budget model now
      (record (put_job job_id (with_outcome current TerminalOutcome.cancelled why) c) {
        queue = remove job_id c.queue;
      })
      job_id TerminalOutcome.cancelled (cancelled_walltime current) none

-- The loop of `cancel_run`.
unfoldable pub cancel_each : Option CostModel → ℕ → List ℕ → Controller → Controller
unfolding cancel_stored
cancel_each model now [] c = c
cancel_each model now (j ∷ ids) c = cancel_each model now ids (elim (get j c.jobs) [
  | none ↦ c
  | some current ↦
      if not (in_state JobState.done current)
      then cancel_stored model now StatusReason.run_cancelled j current c
      else c
])

unfoldable pub cancel_run : Option CostModel → ℕ → Controller → ℕ → Answer Controller
unfolding cancel_each
cancel_run model now c run_id = elim (get run_id c.runs) [
  | none ↦ inl ControllerError.run_not_found
  | some submission ↦ inr (cancel_each model now (job_ids submission) c)
]
