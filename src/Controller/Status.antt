-- ===== src/Controller/Status.antt =====
-- local.py, get_run_status: the counts of a run. The burn report of the free tier is left out.
use hexaqueue.Prelude.{
  ℕ, inl, inr, false, Option, none, some, List, [], ◌∷◌, map, Bool, ◌||◌, ◌>>=◌,
}
use hexaqueue.Prelude.Lists.{length, filter}
use hexaqueue.Prelude.Dict.{Dict, get}
use hexaqueue.Lifecycle.{
  JobState, TerminalOutcome, RunState, RunOutcome, same_outcome, compute_run_state,
  compute_run_outcome,
}
use hexaqueue.Dag.{is_failure}
use hexaqueue.Controller.{Controller, JobRecord, in_state, Answer, ControllerError}
use hexaqueue.Controller.Runs.{job_ids}

pub record RunStatusReport : Type 0 where
  pub completed_jobs : ℕ
  pub failed_jobs : ℕ
  pub outcome : Option RunOutcome
  pub pending_jobs : ℕ
  pub run_id : ℕ
  pub running_jobs : ℕ
  pub state : RunState
  pub total_jobs : ℕ

-- `self._jobs[j.id] for j in submission.jobs`: none is the KeyError of a job that is not stored.
unfoldable pub run_jobs : List ℕ → Dict JobRecord → Option (List JobRecord)
run_jobs [] jobs = some []
run_jobs (j ∷ ids) jobs = do some ((← get j jobs) ∷ (← run_jobs ids jobs))

-- `[j.outcome for j in run_jobs if j.outcome is not None]`
unfoldable pub job_outcomes : List JobRecord → List TerminalOutcome
job_outcomes [] = []
job_outcomes (j ∷ jobs) = elim j.status.outcome [
  | none ↦ job_outcomes jobs
  | some o ↦ o ∷ job_outcomes jobs
]

abbrev pub ended_with : (TerminalOutcome → Bool) → JobRecord → Bool
ended_with p j = elim j.status.outcome [ none ↦ false | some o ↦ p o ]

abbrev pub is_completed : JobRecord → Bool
is_completed = ended_with (same_outcome TerminalOutcome.completed)

abbrev pub is_failed : JobRecord → Bool
is_failed j = ended_with is_failure j || in_state JobState.blocked j

abbrev pub is_running : JobRecord → Bool
is_running j =
    in_state JobState.provisioning j || (in_state JobState.running j || in_state JobState.cleanup j)

abbrev pub is_pending : JobRecord → Bool
is_pending j = in_state JobState.submitted j || in_state JobState.pending j

unfoldable pub run_outcome : RunState → List TerminalOutcome → Option RunOutcome
run_outcome RunState.done outcomes = some (compute_run_outcome outcomes)
run_outcome RunState.blocked outcomes = some RunOutcome.failed
run_outcome _ outcomes = none

-- The report from the jobs of the run.
unfoldable pub report_of : ℕ → List JobRecord → RunStatusReport
unfolding job_outcomes run_outcome
report_of run_id jobs =
    let state = compute_run_state (map (λ j. j.status.state) jobs) in
    record {
      completed_jobs = length (filter is_completed jobs);
      failed_jobs = length (filter is_failed jobs);
      outcome = run_outcome state (job_outcomes jobs);
      pending_jobs = length (filter is_pending jobs);
      run_id = run_id;
      running_jobs = length (filter is_running jobs);
      state = state;
      total_jobs = length jobs;
    }

abbrev report_for : ℕ → Option (List JobRecord) → Answer RunStatusReport
report_for run_id none = inl ControllerError.key_error
report_for run_id (some jobs) = inr (report_of run_id jobs)

unfoldable pub get_run_status : Controller → ℕ → Answer RunStatusReport
unfolding report_of run_jobs
get_run_status c run_id = elim (get run_id c.runs) [
  | none ↦ inl ControllerError.run_not_found
  | some submission ↦ report_for run_id (run_jobs (job_ids submission) c.jobs)
]
