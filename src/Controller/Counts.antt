-- ===== src/Controller/Counts.antt =====
-- local.py, get_run_status: the group in which each job of a run is counted.
use hexaqueue.Prelude.{
  ℕ, ◌+◌, ◌≡◌, refl, inl, inr, true, Option, some, List, [], ◌∷◌, map, arith, Option-cases,
  if◌then◌else◌, ◌==◌,
}
use hexaqueue.Prelude.Lists.{length, filter, All}
use hexaqueue.Prelude.Dict.{Dict, get, contains}
use hexaqueue.Lifecycle.{JobState, TerminalOutcome, status_valid}
use hexaqueue.Controller.{Controller, JobRecord, RunSubmission}
use hexaqueue.Controller.Settling.{AreValid}
use hexaqueue.Controller.Runs.{job_ids}
use hexaqueue.Controller.Status.{
  RunStatusReport, run_jobs, report_of, get_run_status, is_completed, is_failed, is_pending,
  is_running,
}

-- The fields of the report; `unreported` is for none of them.
pub data Group : Type 0 where
  completed failed pending running unreported : Group

abbrev group_of_outcome : Option TerminalOutcome → Group
group_of_outcome (some TerminalOutcome.completed) = Group.completed
group_of_outcome (some TerminalOutcome.failed) = Group.failed
group_of_outcome (some TerminalOutcome.timed_out) = Group.failed
group_of_outcome _ = Group.unreported

-- A job that is done counts by its outcome, a blocked one as failed.
abbrev pub group_of : JobState → Option TerminalOutcome → Group
group_of JobState.submitted outcome = Group.pending
group_of JobState.pending outcome = Group.pending
group_of JobState.blocked outcome = Group.failed
group_of JobState.provisioning outcome = Group.running
group_of JobState.running outcome = Group.running
group_of JobState.cleanup outcome = Group.running
group_of JobState.done outcome = group_of_outcome outcome

abbrev group_index : Group → ℕ
group_index Group.completed = 0
group_index Group.failed = 1
group_index Group.pending = 2
group_index Group.running = 3
group_index Group.unreported = 4

-- The jobs of a group.
abbrev pub count : Group → List JobRecord → ℕ
count g [] = 0
count g (j ∷ jobs) =
    (if group_index (group_of j.status.state j.status.outcome) == group_index g then 1 else 0)
    + count g jobs

abbrev AllValid : List JobRecord → Type 0
AllValid = All (λ j. status_valid j.status ≡ true)

module _ where
  completed-count :
      (jobs : List JobRecord)
      → AllValid jobs
      → length (filter is_completed jobs) ≡ count Group.completed jobs
  unfolding status_valid
  completed-count [] v = refl
  completed-count (j ∷ jobs) v = ground (arith, completed-count jobs v.1, v.0)

  failed-count :
      (jobs : List JobRecord)
      → AllValid jobs
      → length (filter is_failed jobs) ≡ count Group.failed jobs
  unfolding status_valid
  failed-count [] v = refl
  failed-count (j ∷ jobs) v = ground (arith, failed-count jobs v.1, v.0)

  pending-count :
      (jobs : List JobRecord) → length (filter is_pending jobs) ≡ count Group.pending jobs
  pending-count [] = refl
  pending-count (j ∷ jobs) = ground (arith, pending-count jobs)

  running-count :
      (jobs : List JobRecord) → length (filter is_running jobs) ≡ count Group.running jobs
  running-count [] = refl
  running-count (j ∷ jobs) = ground (arith, running-count jobs)

count-sum :
    (jobs : List JobRecord)
    → count Group.completed jobs
        + count Group.failed jobs
        + count Group.pending jobs
        + count Group.running jobs
        + count Group.unreported jobs
      ≡ length jobs
count-sum [] = omega arith
count-sum (j ∷ jobs) = ground (arith, count-sum jobs)

-- The jobs of a run, looked up by its identifiers.
abbrev pub AreLookedUp : List ℕ → Dict JobRecord → List JobRecord → Type 0
AreLookedUp ids stored jobs = map (λ (j : JobRecord). some j) jobs ≡ map (λ k. get k stored) ids

run_jobs_found :
    (ids : List ℕ) (stored : Dict JobRecord)
    → AreValid stored
    → All (λ k. contains k stored ≡ true) ids
    → (jobs : List JobRecord) × (run_jobs ids stored ≡ some jobs)
      × AreLookedUp ids stored jobs
      × AllValid jobs
unfolding run_jobs
run_jobs_found [] stored v known = ([], refl, refl, tt)
run_jobs_found (k ∷ ids) stored v known = elim (Option-cases (get k stored)) [
  | inl missing ↦ ground (arith, known.0)
  | inr (job, e) ↦
      let (jobs, found, looked, valid) = run_jobs_found ids stored v known.1 in
      (job ∷ jobs, rw (e, found) refl, rw (e, looked) refl, (v k job e, valid))
]

-- Each field of the report is the number of the jobs of its group.
abbrev pub Counts : List JobRecord → RunStatusReport → Type 0
Counts jobs report =
    (report.completed_jobs ≡ count Group.completed jobs)
    × (report.failed_jobs ≡ count Group.failed jobs)
    × (report.pending_jobs ≡ count Group.pending jobs)
    × (report.running_jobs ≡ count Group.running jobs)
    × (report.total_jobs
        ≡ report.completed_jobs
          + report.failed_jobs
          + report.pending_jobs
          + report.running_jobs
          + count Group.unreported jobs)

report_of-Counts :
    (run_id : ℕ) (jobs : List JobRecord) → AllValid jobs → Counts jobs (report_of run_id jobs)
unfolding report_of
report_of-Counts run_id jobs v = (
  completed-count jobs v,
  failed-count jobs v,
  pending-count jobs,
  running-count jobs,
  omega (
    arith,
    completed-count jobs v,
    failed-count jobs v,
    pending-count jobs,
    running-count jobs,
    count-sum jobs,
  ),
)

-- For a registered run all of whose jobs are stored, with valid statuses, there is a report; it counts
-- as completed the jobs that are done and completed, as failed those that are done and failed or
-- timed out and the blocked ones, as pending the submitted and the pending ones, and as running those
-- that are provisioned, run or clean up; and these are all its jobs but those that are done with
-- another outcome.
pub get_run_status-Counts :
    (c : Controller) (run_id : ℕ) (submission : RunSubmission)
    → AreValid c.jobs
    → get run_id c.runs ≡ some submission
    → All (λ k. contains k c.jobs ≡ true) (job_ids submission)
    → (jobs : List JobRecord) × (report : RunStatusReport) × (get_run_status c run_id ≡ inr report)
      × AreLookedUp (job_ids submission) c.jobs jobs
      × Counts jobs report
unfolding get_run_status
get_run_status-Counts c run_id submission v e known =
    let (jobs, found, looked, valid) = run_jobs_found (job_ids submission) c.jobs v known in
    (
      jobs,
      report_of run_id jobs,
      rw (e, found, get_run_status) refl,
      looked,
      report_of-Counts run_id jobs valid,
    )
