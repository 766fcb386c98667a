-- ===== src/Scheduling/Engine.antt =====
-- scheduling.py, classes SchedulingDecision and BatchSchedulerEngine. The pool that the engine
-- shares with its parts is passed through them.
use hexaqueue.Prelude.{
  ℕ, ◌*◌, Bool, not, Option, none, some, List, [], ◌∷◌, ◌++◌, ltb, ◌==◌, if◌then◌else◌,
}
use hexaqueue.Prelude.Lists.{filter}
use hexaqueue.Prelude.Dict.{Dict, contains, put, del}
use hexaqueue.Job.{JobSpec, slots}
use hexaqueue.Scheduling.Pool.{ResourceSlotPool, available_slots, can_fit, allocate, release}
use hexaqueue.Scheduling.Priority.{PriorityWeights, RankedJob}
use hexaqueue.Scheduling.Preemption.{
  PreemptionPolicy, find_starved_job, select_preemption_candidate,
}

-- A preempted job is paired with the user whose starvation the reason names.
pub record SchedulingDecision : Type 0 where
  pub backfilled_jobs : List JobSpec
  pub preempted_jobs : List (ℕ × ℕ)
  pub remains_pending : List JobSpec
  pub to_run : List JobSpec

abbrev pub nothing_scheduled : SchedulingDecision
nothing_scheduled = record {
  backfilled_jobs = [];
  preempted_jobs = [];
  remains_pending = [];
  to_run = [];
}

pub record BatchSchedulerEngine : Type 0 where
  pub pool : ResourceSlotPool
  pub weights : PriorityWeights
  pub policy : PreemptionPolicy
  pub default_duration : ℕ
  pub start_times : Dict ℕ

unfoldable pub record_job_start : BatchSchedulerEngine → ℕ → ℕ → BatchSchedulerEngine
record_job_start e job_id timestamp = record e { start_times = put job_id timestamp e.start_times }

-- `known_user` is `get_node(job.user) is not None`; the result is the slot-time that is recorded in
-- the fair-share tree, if any.
unfoldable pub record_job_completion :
    BatchSchedulerEngine → (ℕ → Bool) → JobSpec → ℕ → BatchSchedulerEngine × Option ℕ
record_job_completion e known_user job duration_seconds =
    let consumed = slots job * duration_seconds in
    (
      record e {
        pool = (release e.pool job.id).0;
        start_times =
            if contains job.id e.start_times then del job.id e.start_times else e.start_times;
      },
      if known_user job.user then some consumed else none,
    )

-- The pool, the jobs to run, the anchor and the remaining jobs. Behind the anchor the loop only
-- passes the jobs on.
pub record TopAllocation : Type 0 where
  pub pool : ResourceSlotPool
  pub to_run : List JobSpec
  pub anchor : Option RankedJob
  pub remaining : List RankedJob

unfoldable pub allocate_top_priority : ResourceSlotPool → List RankedJob → TopAllocation
allocate_top_priority p [] = record { pool = p; to_run = []; anchor = none; remaining = [] }
allocate_top_priority p (ranked ∷ rest) =
    let t = allocate_top_priority (allocate p ranked.job).0 rest in
    if can_fit p ranked.job
    then record t { to_run = ranked.job ∷ t.to_run }
    else record { pool = p; to_run = []; anchor = some ranked; remaining = rest }

-- The state that `_handle_monopoly_preemption` changes.
pub record Preempted : Type 0 where
  pub pool : ResourceSlotPool
  pub to_run : List JobSpec
  pub to_preempt : List (ℕ × ℕ)
  pub anchor : Option RankedJob
  pub remaining : List RankedJob

abbrev pub unchanged : TopAllocation → Preempted
unchanged t = record {
  pool = t.pool;
  to_run = t.to_run;
  to_preempt = [];
  anchor = t.anchor;
  remaining = t.remaining;
}

-- From the release of the candidate on.
unfoldable pub preempt : TopAllocation → RankedJob → RankedJob → JobSpec → Preempted
preempt t anchor starved candidate =
    let freed = (release t.pool candidate.id).0 in
    let to_preempt = (candidate.id, starved.job.user) ∷ [] in
    if not (can_fit freed starved.job)
    then record (unchanged t) { pool = freed; to_preempt = to_preempt }
    else record {
      pool = (allocate freed starved.job).0;
      to_run = t.to_run ++ starved.job ∷ [];
      to_preempt = to_preempt;
      anchor = if anchor.job.id == starved.job.id then none else some anchor;
      remaining =
          if anchor.job.id == starved.job.id
          then t.remaining
          else filter (λ r. not (r.job.id == starved.job.id)) t.remaining;
    }

unfoldable pub preempt_for :
    BatchSchedulerEngine → TopAllocation → List JobSpec → ℕ → RankedJob → Preempted
unfolding preempt
preempt_for e t running_jobs now anchor =
    if ltb 0 (available_slots t.pool)
    then unchanged t
    else elim (find_starved_job e.policy (anchor ∷ t.remaining) now) [
      | none ↦ unchanged t
      | some starved ↦
          elim (select_preemption_candidate running_jobs starved.job.user now
            (some e.start_times)) [
              | none ↦ unchanged t
              | some candidate ↦ preempt t anchor starved candidate
            ]
    ]

unfoldable pub handle_monopoly_preemption :
    BatchSchedulerEngine → TopAllocation → List JobSpec → ℕ → Preempted
unfolding preempt_for
handle_monopoly_preemption e t running_jobs now = elim t.anchor [
  | none ↦ unchanged t
  | some anchor ↦ preempt_for e t running_jobs now anchor
]
