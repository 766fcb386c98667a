-- ===== src/Controller/Rewind.antt =====
-- local.py, rewind_run, create_memento and restore_memento.
use hexaqueue.Prelude.{
  ℕ, Bool, false, not, ◌||◌, none, some, List, [], ◌∷◌, map, inl, inr, if◌then◌else◌, leb,
}
use hexaqueue.Prelude.Lists.{filter, member}
use hexaqueue.Prelude.Dict.{Dict, get, put}
use hexaqueue.Prelude.Sort.{sort}
use hexaqueue.Lifecycle.{JobState, is_empty}
use hexaqueue.Dag.{Dependencies, Outcomes, is_failure, is_job_ready}
use hexaqueue.Dag.Downstream.{get_downstream_dependents}
use hexaqueue.Placement.{set_of}
use hexaqueue.Placement.Node.{ComputeNodeProfile}
use hexaqueue.Controller.{
  Controller, JobRecord, RunSubmission, DeadLetterRecord, StatusReason, with_state, in_state,
  enqueue, Answer, ControllerError,
}
use hexaqueue.Controller.Runs.{job_ids}

pub record DagRewindReport : Type 0 where
  pub run_id : ℕ
  pub rewound_job_ids : List ℕ
  pub re_enqueued_job_ids : List ℕ
  pub unaffected_job_ids : List ℕ

-- The outcome of a stored job is FAILED or TIMED_OUT.
abbrev has_failed : Dict JobRecord → ℕ → Bool
has_failed jobs j = elim (get j jobs) [
  | none ↦ false
  | some job ↦ elim job.status.outcome [ none ↦ false | some o ↦ is_failure o ]
]

unfoldable pub rewind_targets : Dict JobRecord → List ℕ → List ℕ → List ℕ
unfolding set_of
rewind_targets jobs ids target_job_ids =
    let failed_ids = filter (has_failed jobs) ids in
    if is_empty target_job_ids
    then if is_empty failed_ids then set_of ids else set_of failed_ids
    else set_of target_job_ids

-- The loop over the jobs of the run, on those that are affected.
unfoldable pub rewind_each : List ℕ → Dict JobRecord → Dict JobRecord
rewind_each [] jobs = jobs
rewind_each (j ∷ ids) jobs = rewind_each ids (elim (get j jobs) [
  | none ↦ jobs
  | some current ↦
      put j
        (record (with_state current JobState.pending StatusReason.dag_rewind) {
          assigned_worker_id = none;
        })
        jobs
])

-- `parent_outcomes`: what done jobs ended with.
unfoldable pub parent_outcomes : Dict JobRecord → Outcomes
parent_outcomes = map (λ e. (e.0, if in_state JobState.done e.1 then e.1.status.outcome else none))

unfoldable pub requeue_ready : Dict JobRecord → List ℕ → List JobRecord → List JobRecord
unfolding enqueue
requeue_ready jobs [] queue = queue
requeue_ready jobs (j ∷ ids) queue =
    requeue_ready jobs ids
      (elim (get j jobs) [ none ↦ queue | some job_to_run ↦ enqueue job_to_run queue ])

-- `affected_ids` among the jobs of the run.
unfoldable pub rewound_jobs : Dependencies → List ℕ → List ℕ → List ℕ
unfolding get_downstream_dependents
rewound_jobs dag targets ids =
    let downstream = get_downstream_dependents dag targets in
    filter (λ j. member j targets || member j downstream) ids

unfoldable pub ready_jobs : Dependencies → Dict JobRecord → List ℕ → List ℕ
unfolding parent_outcomes
ready_jobs dag jobs rewound = filter (λ j. is_job_ready dag j (parent_outcomes jobs)) rewound

-- The part of `rewind_run` behind the look-ups.
unfoldable pub rewind_found :
    Controller → RunSubmission → Dependencies → List ℕ → DagRewindReport × Controller
unfolding rewind_targets rewound_jobs rewind_each ready_jobs requeue_ready
rewind_found c submission dag target_job_ids =
    let ids = job_ids submission in
    let rewound = rewound_jobs dag (rewind_targets c.jobs ids target_job_ids) ids in
    let jobs = rewind_each rewound c.jobs in
    let ready = ready_jobs dag jobs rewound in
    (
      record {
        run_id = submission.id;
        rewound_job_ids = sort leb rewound;
        re_enqueued_job_ids = sort leb ready;
        unaffected_job_ids = sort leb (filter (λ j. not (member j rewound)) ids);
      },
      record c { jobs = jobs; queue = requeue_ready jobs ready c.queue },
    )

unfoldable pub rewind_run : Controller → ℕ → List ℕ → Answer (DagRewindReport × Controller)
unfolding rewind_found
rewind_run c run_id target_job_ids = elim (get run_id c.runs) [
  | none ↦ inl ControllerError.run_not_found
  | some submission ↦ elim (get run_id c.dag_engines) [
    | none ↦ inl ControllerError.dag_not_found
    | some dag ↦ inr (rewind_found c submission dag target_job_ids)
  ]
]

pub record SchedulerMemento : Type 0 where
  pub runs : Dict RunSubmission
  pub jobs : Dict JobRecord
  pub nodes : Dict ComputeNodeProfile
  pub job_reservations : Dict ℕ
  pub dead_letters : List DeadLetterRecord
  pub created_at : ℕ

unfoldable pub create_memento : ℕ → Controller → SchedulerMemento
create_memento now c = record {
  runs = c.runs;
  jobs = c.jobs;
  nodes = c.nodes;
  job_reservations = c.job_reservations;
  dead_letters = c.dead_letters;
  created_at = now;
}

unfoldable pub restore_memento : SchedulerMemento → Controller → Controller
restore_memento m c = record c {
  runs = m.runs;
  jobs = m.jobs;
  nodes = m.nodes;
  job_reservations = m.job_reservations;
  dead_letters = m.dead_letters;
}
