-- ===== src/Scheduling/Backfill.antt =====
-- scheduling.py, class ConservativeBackfillScheduler.
use hexaqueue.Prelude.{ℕ, Option, List, [], ◌∷◌, leb, if◌then◌else◌, get_or}
use hexaqueue.Prelude.Dict.{Dict, get}
use hexaqueue.Job.{JobSpec}
use hexaqueue.Scheduling.Pool.{ResourceSlotPool, can_fit, allocate}
use hexaqueue.Scheduling.Priority.{RankedJob}

-- `durations.get(job.id, default)`
abbrev pub estimate : Dict ℕ → ℕ → JobSpec → ℕ
estimate durations default_duration job = get_or (get job.id durations) default_duration

-- The loop of `evaluate_backfill`: the pool after it, and the jobs approved in order.
unfoldable pub backfill_loop :
    ℕ → Dict ℕ → ℕ → ResourceSlotPool → List RankedJob → ResourceSlotPool × List JobSpec
backfill_loop default_duration durations window p [] = (p, [])
backfill_loop default_duration durations window p (ranked ∷ rest) =
    let skipped = backfill_loop default_duration durations window p rest in
    let (p', jobs) =
      backfill_loop default_duration durations window (allocate p ranked.job).0 rest in
    if can_fit p ranked.job
    then if leb (estimate durations default_duration ranked.job) window
      then (p', ranked.job ∷ jobs)
      else skipped
    else skipped

unfoldable pub evaluate_backfill :
    ℕ → List RankedJob → ResourceSlotPool → ℕ → Option (Dict ℕ) → ResourceSlotPool × List JobSpec
evaluate_backfill default_duration unallocated_pending p window job_durations =
    backfill_loop default_duration (get_or job_durations []) window p unallocated_pending
