-- ===== src/Controller/Refinement.antt =====
-- local.py beside lifecycle.py: the calls that keep to the state machine of jobs, one by one.
use hexaqueue.Prelude.{
  ℕ, ◌≡◌, refl, sym, subst, inl, inr, true, Option, none, List, [], ◌∷◌, arith, Bool-cases, not,
  ◌&&◌, on_option, on_if,
}
use hexaqueue.Prelude.Dict.{Dict, get}
use hexaqueue.Prelude.Int.{ℤ}
use hexaqueue.Lifecycle.{JobState, TerminalOutcome, same_state, can_transition_job}
use hexaqueue.Controller.{
  Controller, JobRecord, StatusReason, with_outcome, in_state, Answer, ControllerError, CostModel,
}
use hexaqueue.Controller.Runs.{
  cancelled_walltime, put_job, job_ids, advance_run_of, record_outcome, update_job_outcome,
  cancel_stored, cancel_each, cancel_run,
}
use hexaqueue.Controller.Jobs.{cancel_job, hold_job, release_job, is_held}
use hexaqueue.Controller.Budgets.{settle_or_release_job_budget}
use hexaqueue.Controller.Legality.{
  KeepsTo, KeepsTo-refl, put-KeepsTo, Advanced-KeepsTo, EndsIn, EndsIn-refl, EndsIn-trans,
  put-EndsIn, EndsIn-KeepsTo,
}
use hexaqueue.Controller.Nodes.{heartbeat_node}
use hexaqueue.Controller.Sound.{IsSound, with_outcome-IsSoundJob, advance_run_of-Advanced}
use hexaqueue.Controller.Invariant.{
  settle-jobs, settle-IsSound, put_job-IsSound, cancel_stored-IsSound,
}

settled-EndsIn :
    (model : Option CostModel) (now : ℕ) (before : Dict JobRecord) (marked : Controller)
    (job_id : ℕ) (outcome : TerminalOutcome) (walltime : Option ℕ) (consumed : Option ℤ)
    → EndsIn before marked.jobs
    → EndsIn before
        (settle_or_release_job_budget model now marked job_id outcome walltime consumed).jobs
settled-EndsIn model now before marked job_id outcome walltime consumed h =
    subst (EndsIn before) (sym (settle-jobs model now marked job_id outcome walltime consumed).0) h

cancel_stored-EndsIn :
    (model : Option CostModel) (now : ℕ) (why : StatusReason) (job_id : ℕ) (current : JobRecord)
    (c : Controller)
    → EndsIn c.jobs (cancel_stored model now why job_id current c).jobs
unfolding cancel_stored
cancel_stored-EndsIn model now why job_id current c =
    settled-EndsIn model now c.jobs _ job_id TerminalOutcome.cancelled (cancelled_walltime current)
      none (put-EndsIn c.jobs job_id _ refl)

cancel_each-EndsIn :
    (model : Option CostModel) (now : ℕ) (ids : List ℕ) (c : Controller)
    → EndsIn c.jobs (cancel_each model now ids c).jobs
unfolding cancel_each
cancel_each-EndsIn model now [] c = EndsIn-refl c.jobs
cancel_each-EndsIn model now (j ∷ ids) c =
    EndsIn-trans c.jobs _ _
      (on_option (λ (x : Controller). EndsIn c.jobs x.jobs) (get j c.jobs) c _ (EndsIn-refl c.jobs)
        λ current e.
          on_if (λ (x : Controller). EndsIn c.jobs x.jobs) (not (in_state JobState.done current)) _
            c (cancel_stored-EndsIn model now StatusReason.run_cancelled j current c)
            (EndsIn-refl c.jobs))
      (cancel_each-EndsIn model now ids _)

-- A call that returns, keeps to the machine.
abbrev pub AnswerKeeps : Controller → Answer Controller → Type 0
AnswerKeeps c (inl e) = Unit
AnswerKeeps c (inr c') = KeepsTo c.jobs c'.jobs

advanced-KeepsTo :
    (run_id : ℕ) (c marked : Controller)
    → IsSound marked
    → KeepsTo c.jobs marked.jobs
    → KeepsTo c.jobs (advance_run_of run_id marked).jobs
advanced-KeepsTo run_id c marked i h =
    Advanced-KeepsTo c.jobs marked.jobs _ h (advance_run_of-Advanced run_id marked i)

pub report-AnswerKeeps :
    (model : Option CostModel) (now : ℕ) (c : Controller) (job_id : ℕ) (outcome : TerminalOutcome)
    (reason walltime : Option ℕ) (consumed : Option ℤ)
    → IsSound c
    → AnswerKeeps c (update_job_outcome model now c job_id outcome reason walltime consumed)
unfolding update_job_outcome record_outcome
report-AnswerKeeps model now c job_id outcome reason walltime consumed i =
    on_option (AnswerKeeps c) (get job_id c.jobs) (inl ControllerError.job_not_found) _ tt
      λ current e.
        let done_job = with_outcome current outcome (StatusReason.reported reason) in
        let marked = put_job job_id done_job c in
        advanced-KeepsTo current.run_id c
          (settle_or_release_job_budget model now marked job_id outcome walltime consumed)
          (settle-IsSound model now marked job_id outcome walltime consumed (
            put_job-IsSound job_id done_job c.queue c
              (with_outcome-IsSoundJob job_id current outcome (StatusReason.reported reason)
                (i.jobs_sound job_id current e))
              i.queue_pending i))
          (EndsIn-KeepsTo c.jobs _ (
            settled-EndsIn model now c.jobs marked job_id outcome walltime consumed
              (put-EndsIn c.jobs job_id done_job refl)))

pub cancel-AnswerKeeps :
    (model : Option CostModel) (now : ℕ) (c : Controller) (job_id : ℕ)
    → IsSound c
    → AnswerKeeps c (cancel_job model now c job_id)
unfolding cancel_job
cancel-AnswerKeeps model now c job_id i =
    on_option (AnswerKeeps c) (get job_id c.jobs) (inl ControllerError.job_not_found) _ tt
      λ current e.
        on_if (AnswerKeeps c) (not (in_state JobState.done current)) _ (inr c)
          (advanced-KeepsTo current.run_id c
            (cancel_stored model now StatusReason.job_cancelled job_id current c)
            (cancel_stored-IsSound model now StatusReason.job_cancelled job_id current c e i)
            (EndsIn-KeepsTo c.jobs _
              (cancel_stored-EndsIn model now StatusReason.job_cancelled job_id current c)))
          (KeepsTo-refl c.jobs)

state_is : (s t : JobState) → same_state s t ≡ true → s ≡ t
state_is s t h = ground (arith, h)

pub hold-AnswerKeeps : (c : Controller) (job_id : ℕ) → AnswerKeeps c (hold_job c job_id)
unfolding hold_job can_transition_job
hold-AnswerKeeps c job_id =
    on_option (AnswerKeeps c) (get job_id c.jobs) (inl ControllerError.job_not_found) _ tt
      λ current e. elim (Bool-cases (in_state JobState.pending current)) [
        | inl p ↦ rw p (
            put-KeepsTo c.jobs job_id current _ e (
              subst (λ s. can_transition_job s JobState.blocked ≡ true)
                (sym (state_is current.status.state JobState.pending p)) refl))
        | inr p ↦ rw p (KeepsTo-refl c.jobs)
      ]

pub release-AnswerKeeps : (c : Controller) (job_id : ℕ) → AnswerKeeps c (release_job c job_id)
unfolding release_job can_transition_job
release-AnswerKeeps c job_id =
    on_option (AnswerKeeps c) (get job_id c.jobs) (inl ControllerError.job_not_found) _ tt
      λ current e. elim (Bool-cases (in_state JobState.blocked current && is_held current.reason)) [
        | inl p ↦ rw p (
            put-KeepsTo c.jobs job_id current _ e (
              subst (λ s. can_transition_job s JobState.pending ≡ true)
                (sym (state_is current.status.state JobState.blocked (ground (arith, p)))) refl))
        | inr p ↦ rw p (KeepsTo-refl c.jobs)
      ]

pub cancel_run-AnswerKeeps :
    (model : Option CostModel) (now : ℕ) (c : Controller) (run_id : ℕ)
    → AnswerKeeps c (cancel_run model now c run_id)
unfolding cancel_run
cancel_run-AnswerKeeps model now c run_id =
    on_option (AnswerKeeps c) (get run_id c.runs) (inl ControllerError.run_not_found) _ tt
      λ submission e. EndsIn-KeepsTo c.jobs _ (cancel_each-EndsIn model now (job_ids submission) c)

pub heartbeat-AnswerKeeps :
    (now : ℕ) (c : Controller) (worker_id : ℕ) (active cached : Option (List ℕ))
    → AnswerKeeps c (heartbeat_node now c worker_id active cached)
unfolding heartbeat_node
heartbeat-AnswerKeeps now c worker_id active cached =
    on_option (AnswerKeeps c) (get worker_id c.nodes) (inl ControllerError.node_not_found) _ tt
      λ current e. KeepsTo-refl c.jobs
