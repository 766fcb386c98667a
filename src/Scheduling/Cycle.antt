-- ===== src/Scheduling/Cycle.antt =====
-- scheduling.py, BatchSchedulerEngine: the reservation window of the anchor, the backfill step, and
-- the whole scheduling cycle.
use hexaqueue.Prelude.{
  ℕ, ◌+◌, ◌-◌, Bool, not, Option, none, some, List, [], ◌∷◌, ◌++◌, map, leb, ◌==◌, if◌then◌else◌,
  get_or,
}
use hexaqueue.Prelude.Lists.{filter, member}
use hexaqueue.Prelude.Dict.{Dict, get}
use hexaqueue.Prelude.Sort.{sort}
use hexaqueue.Job.{JobSpec, slots}
use hexaqueue.Scheduling.Pool.{ResourceSlotPool, available_slots}
use hexaqueue.Scheduling.Priority.{RankedJob, rank_jobs}
use hexaqueue.Scheduling.Backfill.{estimate, evaluate_backfill}
use hexaqueue.Scheduling.Engine.{
  SchedulingDecision, nothing_scheduled, BatchSchedulerEngine, allocate_top_priority, Preempted,
  handle_monopoly_preemption,
}

-- When a job ends, counted from now, and the slots that it frees.
pub record Completion : Type 0 where
  pub remaining_t : ℕ
  pub slot_count : ℕ

unfoldable pub running_completion : BatchSchedulerEngine → ℕ → Dict ℕ → JobSpec → Completion
running_completion e now durations rj =
    let start_t = get_or (get rj.id e.start_times) now in
    let dur = estimate durations e.default_duration rj in
    record { remaining_t = (start_t + dur) - now; slot_count = slots rj }

unfoldable pub allocated_completion : BatchSchedulerEngine → ℕ → Dict ℕ → JobSpec → Completion
allocated_completion e now durations aj = record {
  remaining_t = (now + estimate durations e.default_duration aj) - now;
  slot_count = slots aj;
}

abbrev pub ends_before : Completion → Completion → Bool
ends_before a b = leb a.remaining_t b.remaining_t

-- The last loop: the first end by which `needed` slots are free.
unfoldable pub first_end : ℕ → ℕ → ℕ → List Completion → ℕ
first_end default_dur needed accumulated [] = default_dur
first_end default_dur needed accumulated (c ∷ cs) =
    let later = first_end default_dur needed (accumulated + c.slot_count) cs in
    if leb needed (accumulated + c.slot_count) then c.remaining_t else later

unfoldable pub completions :
    BatchSchedulerEngine → ℕ → Dict ℕ → List JobSpec → List JobSpec → List Completion
unfolding running_completion allocated_completion
completions e now durations running_jobs allocated_jobs =
    map (running_completion e now durations) running_jobs
    ++ map (allocated_completion e now durations) allocated_jobs

unfoldable pub anchor_reservation_window :
    BatchSchedulerEngine
    → ResourceSlotPool
    → RankedJob
    → List JobSpec
    → ℕ
    → Option (Dict ℕ)
    → Option (List JobSpec)
    → ℕ
unfolding completions
anchor_reservation_window e pool anchor running_jobs now estimated_durations allocated_jobs =
    let needed_slots = slots anchor.job - available_slots pool in
    let ends =
      completions e now (get_or estimated_durations []) running_jobs (get_or allocated_jobs []) in
    if needed_slots == 0
    then 0
    else first_end e.default_duration needed_slots 0 (sort ends_before ends)

pub record Backfilled : Type 0 where
  pub pool : ResourceSlotPool
  pub backfilled : List JobSpec
  pub remaining : List RankedJob

abbrev pub ids : List JobSpec → List ℕ
ids = map (λ j. j.id)

unfoldable pub backfill_behind :
    BatchSchedulerEngine → Preempted → RankedJob → List JobSpec → ℕ → Option (Dict ℕ) → Backfilled
backfill_behind e s anchor running_jobs now estimated_durations =
    let window =
      anchor_reservation_window e s.pool anchor running_jobs now estimated_durations
        (some s.to_run) in
    let (pool, jobs) =
      evaluate_backfill e.default_duration s.remaining s.pool window estimated_durations in
    record {
      pool = pool;
      backfilled = jobs;
      remaining = filter (λ r. not (member r.job.id (ids jobs))) s.remaining;
    }

unfoldable pub handle_backfill :
    BatchSchedulerEngine → Preempted → List JobSpec → ℕ → Option (Dict ℕ) → Backfilled
unfolding backfill_behind
handle_backfill e s running_jobs now estimated_durations = elim s.anchor [
  | none ↦ record { pool = s.pool; backfilled = []; remaining = s.remaining }
  | some anchor ↦
      if available_slots s.pool == 0
      then record { pool = s.pool; backfilled = []; remaining = s.remaining }
      else backfill_behind e s anchor running_jobs now estimated_durations
]

abbrev pub anchor_job : Option RankedJob → List JobSpec
anchor_job none = []
anchor_job (some anchor) = anchor.job ∷ []

abbrev pub jobs_of : List RankedJob → List JobSpec
jobs_of = map (λ r. r.job)

-- The factors of all users that have a job; `factor` is `compute_fairshare_factor` at this time.
unfoldable pub factors_of : (ℕ → ℕ) → List JobSpec → Dict ℕ
factors_of factor jobs = map (λ j. (j.user, factor j.user)) jobs

-- The cycle behind the ranking.
unfoldable pub dispatch_ranked :
    BatchSchedulerEngine
    → List RankedJob
    → List JobSpec
    → ℕ
    → Option (Dict ℕ)
    → BatchSchedulerEngine × SchedulingDecision
dispatch_ranked e ranked_pending running_jobs now estimated_durations =
    let t = allocate_top_priority e.pool ranked_pending in
    let s = handle_monopoly_preemption e t running_jobs now in
    let b = handle_backfill e s running_jobs now estimated_durations in
    (
      record e { pool = b.pool },
      record {
        backfilled_jobs = b.backfilled;
        preempted_jobs = s.to_preempt;
        remains_pending = anchor_job s.anchor ++ jobs_of b.remaining;
        to_run = s.to_run;
      },
    )

unfoldable pub schedule_cycle :
    BatchSchedulerEngine
    → (ℕ → ℕ)
    → List JobSpec
    → List JobSpec
    → ℕ
    → Option (Dict ℕ)
    → BatchSchedulerEngine × SchedulingDecision
unfolding dispatch_ranked
schedule_cycle e factor [] running_jobs now estimated_durations = (e, nothing_scheduled)
schedule_cycle e factor (job ∷ jobs) running_jobs now estimated_durations =
    let factors = factors_of factor ((job ∷ jobs) ++ running_jobs) in
    let ranked = rank_jobs e.weights (job ∷ jobs) now (some factors) in
    dispatch_ranked e ranked running_jobs now estimated_durations
