-- ===== src/Controller/Invariant.antt =====
-- local.py: what every call of the controller keeps.
use hexaqueue.Prelude.{
  ℕ, ◌≡◌, refl, sym, subst, inl, inr, true, Option, none, some, List, [], ◌∷◌, Bool-cases,
  Option-cases, Bool,
}
use hexaqueue.Prelude.Lists.{All, All-filter, any}
use hexaqueue.Prelude.Dict.{get, Unique, Unique-put}
use hexaqueue.Prelude.Int.{ℤ}
use hexaqueue.Lifecycle.{JobState, TerminalOutcome, status_valid}
use hexaqueue.Dag.{Dependencies, is_job_ready}
use hexaqueue.Controller.{
  Controller, JobRecord, RunSubmission, StatusReason, with_state, in_state, Queue, enqueue, remove,
  CostModel,
}
use hexaqueue.Budget.Ledger.{Ledger}
use hexaqueue.Controller.Budgets.{settle_reserved, settle_or_release_job_budget}
use hexaqueue.Controller.Runs.{
  put_job, record_outcome, cancelled_walltime, cancel_stored, cancel_each, enqueue_initial,
  enqueue_each, enqueue_initial_jobs,
}
use hexaqueue.Controller.Sound.{
  IsSoundJob, AreSound, IsSound, put-AreSound, with_state-IsSoundJob, with_outcome-IsSoundJob,
  enqueue-pending, advance_run-IsSound, advance_run_of-IsSound,
}
use hexaqueue.Controller.Commands.{IsFresh}

-- The jobs and the queue stay when the budget is settled.
settle_reserved-jobs :
    (model : Option CostModel) (now : ℕ) (c : Controller) (job_id : ℕ) (outcome : TerminalOutcome)
    (walltime : Option ℕ) (consumed : Option ℤ) (l : Option Ledger) (res : Option ℕ)
    → let c' = settle_reserved model now c job_id outcome walltime consumed l res in
      (c'.jobs ≡ c.jobs) × (c'.queue ≡ c.queue)
unfolding settle_reserved
settle_reserved-jobs model now c job_id outcome walltime consumed none _ = (refl, refl)
settle_reserved-jobs model now c job_id outcome walltime consumed (some l) none = (refl, refl)
settle_reserved-jobs model now c job_id outcome walltime consumed (some l) (some res) = (refl, refl)

pub settle-jobs :
    (model : Option CostModel) (now : ℕ) (c : Controller) (job_id : ℕ) (outcome : TerminalOutcome)
    (walltime : Option ℕ) (consumed : Option ℤ)
    → let c' = settle_or_release_job_budget model now c job_id outcome walltime consumed in
      (c'.jobs ≡ c.jobs) × (c'.queue ≡ c.queue)
unfolding settle_or_release_job_budget
settle-jobs model now c job_id outcome walltime consumed =
    settle_reserved-jobs model now c job_id outcome walltime consumed c.budget_port
      (get job_id c.job_reservations)

pub settle-IsSound :
    (model : Option CostModel) (now : ℕ) (c : Controller) (job_id : ℕ) (outcome : TerminalOutcome)
    (walltime : Option ℕ) (consumed : Option ℤ)
    → IsSound c
    → IsSound (settle_or_release_job_budget model now c job_id outcome walltime consumed)
unfolding settle_or_release_job_budget
settle-IsSound model now c job_id outcome walltime consumed i = record {
  jobs_sound =
      subst AreSound (sym (settle-jobs model now c job_id outcome walltime consumed).0)
        i.jobs_sound;
  unique = subst Unique (sym (settle-jobs model now c job_id outcome walltime consumed).0) i.unique;
  queue_pending =
      subst (All (λ j. in_state JobState.pending j ≡ true))
        (sym (settle-jobs model now c job_id outcome walltime consumed).1) i.queue_pending;
}

pub put_job-IsSound :
    (k : ℕ) (job : JobRecord) (queue : Queue) (c : Controller)
    → IsSoundJob k job
    → All (λ j. in_state JobState.pending j ≡ true) queue
    → IsSound c
    → IsSound (record (put_job k job c) { queue = queue })
put_job-IsSound k job queue c s q i = record {
  jobs_sound = put-AreSound k job c.jobs s i.jobs_sound;
  unique = Unique-put k job c.jobs i.unique;
  queue_pending = q;
}

pub record_outcome-IsSound :
    (model : Option CostModel) (now : ℕ) (c : Controller) (job_id : ℕ) (current : JobRecord)
    (outcome : TerminalOutcome) (reason walltime : Option ℕ) (consumed : Option ℤ)
    → get job_id c.jobs ≡ some current
    → IsSound c
    → IsSound (record_outcome model now c job_id current outcome reason walltime consumed)
unfolding record_outcome
record_outcome-IsSound model now c job_id current outcome reason walltime consumed e i =
    advance_run_of-IsSound current.run_id _ (
      settle-IsSound model now _ job_id outcome walltime consumed (
        put_job-IsSound job_id _ c.queue c
          (with_outcome-IsSoundJob job_id current outcome (StatusReason.reported reason)
            (i.jobs_sound job_id current e))
          i.queue_pending i))

pub cancel_stored-IsSound :
    (model : Option CostModel) (now : ℕ) (why : StatusReason) (job_id : ℕ) (current : JobRecord)
    (c : Controller)
    → get job_id c.jobs ≡ some current
    → IsSound c
    → IsSound (cancel_stored model now why job_id current c)
unfolding cancel_stored remove
cancel_stored-IsSound model now why job_id current c e i =
    settle-IsSound model now _ job_id TerminalOutcome.cancelled (cancelled_walltime current) none (
      put_job-IsSound job_id _ (remove job_id c.queue) c
        (with_outcome-IsSoundJob job_id current TerminalOutcome.cancelled why
          (i.jobs_sound job_id current e))
        (All-filter (λ j. in_state JobState.pending j ≡ true) _ c.queue i.queue_pending) i)

pub cancel_each-IsSound :
    (model : Option CostModel) (now : ℕ) (ids : List ℕ) (c : Controller)
    → IsSound c
    → IsSound (cancel_each model now ids c)
unfolding cancel_each
cancel_each-IsSound model now [] c i = i
cancel_each-IsSound model now (j ∷ ids) c i = elim (Option-cases (get j c.jobs)) [
  | inl e ↦ subst IsSound (sym (rw (e, cancel_each) refl)) (cancel_each-IsSound model now ids c i)
  | inr (current, e) ↦ elim (Bool-cases (in_state JobState.done current)) [
    | inl d ↦
        subst IsSound (sym (rw (e, d, cancel_each) refl)) (cancel_each-IsSound model now ids c i)
    | inr d ↦ subst IsSound (sym (rw (e, d, cancel_each) refl)) (
        cancel_each-IsSound model now ids _
          (cancel_stored-IsSound model now StatusReason.run_cancelled j current c e i))
  ]
]

fresh-IsSoundJob : (job : JobRecord) → IsFresh job → IsSoundJob job.spec.id job
fresh-IsSoundJob job h = record { valid = h.0; keyed = refl; bounded = h.1; unassigned = h.2 }

enqueue_initial-IsSound :
    (violates : JobRecord → Bool) (dag : Dependencies) (job : JobRecord) (c : Controller)
    → IsFresh job
    → IsSound c
    → IsSound (enqueue_initial violates dag job c)
unfolding enqueue_initial status_valid
enqueue_initial-IsSound violates dag job c h i = elim (Bool-cases (violates job)) [
  | inl v ↦ subst IsSound (sym (rw (v, enqueue_initial) refl)) (
      put_job-IsSound job.spec.id _ c.queue c
        (with_state-IsSoundJob job.spec.id job JobState.blocked StatusReason.free_tier_exceeded refl
          refl (fresh-IsSoundJob job h))
        i.queue_pending i)
  | inr v ↦
      let stored : IsSound (put_job job.spec.id job c) =
        put_job-IsSound job.spec.id job c.queue c (fresh-IsSoundJob job h) i.queue_pending i in
      elim (Bool-cases (is_job_ready dag job.spec.id [])) [
        | inl r ↦ subst IsSound (sym (rw (v, r, enqueue_initial) refl)) (
            put_job-IsSound job.spec.id (with_state job JobState.pending StatusReason.no_reason)
              (enqueue (with_state job JobState.pending StatusReason.no_reason) c.queue)
              (put_job job.spec.id job c)
              (with_state-IsSoundJob job.spec.id job JobState.pending StatusReason.no_reason refl
                refl (fresh-IsSoundJob job h))
              (enqueue-pending _ c.queue refl i.queue_pending) stored)
        | inr r ↦ subst IsSound (sym (rw (v, r, enqueue_initial) refl)) stored
      ]
]

pub enqueue_each-IsSound :
    (violates : JobRecord → Bool) (dag : Dependencies) (jobs : List JobRecord) (c : Controller)
    → All IsFresh jobs
    → IsSound c
    → IsSound (enqueue_each violates dag jobs c)
unfolding enqueue_each
enqueue_each-IsSound violates dag [] c h i = i
enqueue_each-IsSound violates dag (job ∷ jobs) c h i =
    enqueue_each-IsSound violates dag jobs (enqueue_initial violates dag job c) h.1
      (enqueue_initial-IsSound violates dag job c h.0 i)

pub enqueue_initial_jobs-IsSound :
    (violates : JobRecord → Bool) (submission : RunSubmission) (dag : Dependencies) (c : Controller)
    → All IsFresh submission.jobs
    → IsSound c
    → IsSound (enqueue_initial_jobs violates submission dag c)
unfolding enqueue_initial_jobs
enqueue_initial_jobs-IsSound violates submission dag c h i =
    let all : IsSound (enqueue_each violates dag submission.jobs c) =
      enqueue_each-IsSound violates dag submission.jobs c h i in
    elim (Bool-cases (any violates submission.jobs)) [
      | inl e ↦
          subst IsSound (sym (rw (e, enqueue_initial_jobs) refl))
            (advance_run-IsSound submission dag (enqueue_each violates dag submission.jobs c) all)
      | inr e ↦ subst IsSound (sym (rw (e, enqueue_initial_jobs) refl)) all
    ]
