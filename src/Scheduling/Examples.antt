-- ===== src/Scheduling/Examples.antt =====
-- A cluster of four slots on which the theorems about scheduling are applied.
use mathlib.Core.List.{Perm, Nodup, Nodup-cons, Nodup-nil, not-mem-nil, mem-singleton}
use hexaqueue.Prelude.{
  ℕ, ◌+◌, ◌≤◌, ◌<◌, ◌≡◌, ◌≢◌, ◌⊎◌, refl, true, Option, none, some, List, [], ◌∷◌, ◌++◌, arith,
}
use hexaqueue.Prelude.Dict.{Dict}
use hexaqueue.Prelude.Int.{pos, ◌+ℤ◌, ◌*ℤ◌, ◌≤ℤ◌}
use hexaqueue.Prelude.Lists.{All}
use hexaqueue.Prelude.Members.{In}
use hexaqueue.Prelude.Sort.{AreOrdered}
use hexaqueue.Job.{JobSpec, slots}
use hexaqueue.Scheduling.Pool.{ResourceSlotPool, used_slots, available_slots, can_fit, release}
use hexaqueue.Scheduling.Priority.{
  PriorityWeights, RankedJob, unit, calculate_effective_priority, ranks_before, rank_jobs, rank_job,
}
use hexaqueue.Scheduling.Preemption.{select_preemption_candidate, find_starved_job}
use hexaqueue.Scheduling.Backfill.{backfill_loop, evaluate_backfill}
use hexaqueue.Scheduling.Engine.{
  BatchSchedulerEngine, allocate_top_priority, handle_monopoly_preemption,
}
use hexaqueue.Scheduling.Cycle.{
  jobs_of, first_end, handle_backfill, running_completion, completions, ids, factors_of,
  schedule_cycle, anchor_reservation_window,
}
use hexaqueue.Scheduling.Conservation.{IsConserved, schedule_cycle-IsConserved}
use hexaqueue.Scheduling.Partition.Whole.{decided, schedule_cycle-perm}
use hexaqueue.Scheduling.Ranking.{Precedes, IsRated, rank_jobs-AreOrdered, priority_aging}
use hexaqueue.Scheduling.Selection.{LosesNoMore, select_preemption_candidate-cheapest}
use hexaqueue.Scheduling.Victims.{Victims, schedule_cycle-Victims}
use hexaqueue.Scheduling.Window.{freed_by, freed_in_all, ends, anchor_reservation_window-IsEarliest}

abbrev job_of : ℕ → ℕ → ℕ → JobSpec
job_of id user cpus = record {
  id = id;
  user = user;
  cpus = cpus;
  collateral_ids = [];
  priority = pos 0;
  checkpointable = true;
  priority_bonus = pos 0;
  created_at = id;
}

-- A long job that runs, a wide and a narrow one that wait.
abbrev held_job : JobSpec
held_job = job_of 1 7 3

abbrev wide_job : JobSpec
wide_job = job_of 2 8 4

abbrev narrow_job : JobSpec
narrow_job = job_of 3 8 1

abbrev waiting : List JobSpec
waiting = wide_job ∷ narrow_job ∷ []

abbrev cluster : ℕ → ResourceSlotPool
cluster total = record {
  total_slots = total;
  total_cpus = total;
  allocated_jobs = (1, held_job) ∷ [];
}

abbrev some_weights : PriorityWeights
some_weights = record {
  max_age_seconds = 604_800;
  weight_age = 1000;
  weight_base_priority = 1;
  weight_fairshare = 1000;
}

abbrev engine_of : ℕ → BatchSchedulerEngine
engine_of total = record {
  pool = cluster total;
  weights = some_weights;
  policy = record {
    grace_period_seconds = 20;
    preemption_bonus = 0;
    starvation_deficit_threshold = 500_000;
  };
  default_duration = 60;
  start_times = (1, 5) ∷ [];
}

abbrev even_factor : ℕ → ℕ
even_factor user = unit

abbrev ranked_wide : RankedJob
ranked_wide = record {
  age_factor = 0;
  effective_priority = pos 0;
  fairshare_factor = unit;
  job = wide_job;
}

abbrev some_durations : Option (Dict ℕ)
some_durations = some ((3, 10) ∷ [])

-- Of four slots one is free: the wide job is the anchor and the narrow one is backfilled.
backfilled_run :
    ((schedule_cycle
        (engine_of 4)
        even_factor
        waiting
        (held_job ∷ [])
        20
        some_durations).1.backfilled_jobs
      ≡ narrow_job ∷ [])
    × ((schedule_cycle
          (engine_of 4)
          even_factor
          waiting
          (held_job ∷ [])
          20
          some_durations).1.remains_pending
        ≡ wide_job ∷ [])
unfolding schedule_cycle handle_backfill handle_monopoly_preemption allocate_top_priority rank_jobs
    ranks_before rank_job calculate_effective_priority ◌+ℤ◌ factors_of ◌*ℤ◌ can_fit
    evaluate_backfill backfill_loop anchor_reservation_window first_end
backfilled_run = (refl, refl)

-- Of three slots none is free: the held job is preempted, and the narrow one runs in its place.
preempting_run :
    (schedule_cycle
      (engine_of 3)
      even_factor
      (narrow_job ∷ [])
      (held_job ∷ [])
      100
      none).1.preempted_jobs
    ≡ (1, 8) ∷ []
unfolding schedule_cycle handle_monopoly_preemption allocate_top_priority rank_jobs can_fit rank_job
    find_starved_job factors_of select_preemption_candidate release
preempting_run = refl

distinct_waiting : Nodup (ids waiting)
distinct_waiting = Nodup-cons.1 (
  λ m. absurd (omega (arith, (mem-singleton {A = ℕ} hlevel).0 m)),
  Nodup-cons.1 (not-mem-nil, Nodup-nil),
)

schedule_cycle-perm_example :
    Perm
      (decided (schedule_cycle (engine_of 4) even_factor waiting (held_job ∷ []) 100 none).1)
      waiting
schedule_cycle-perm_example =
    schedule_cycle-perm (engine_of 4) even_factor waiting (held_job ∷ []) 100 none distinct_waiting

cluster-IsConserved : IsConserved 4 (engine_of 4).pool
unfolding used_slots
cluster-IsConserved = record { capacity = refl; within = omega arith }

schedule_cycle-IsConserved_example :
    IsConserved 4 (schedule_cycle (engine_of 4) even_factor waiting (held_job ∷ []) 100 none).0.pool
schedule_cycle-IsConserved_example =
    schedule_cycle-IsConserved 4 (engine_of 4) even_factor waiting (held_job ∷ []) 100 none
      cluster-IsConserved

narrow_fits : can_fit (cluster 4) narrow_job ≡ true
unfolding can_fit
narrow_fits = refl

schedule_cycle-Victims_example :
    Victims
      (engine_of 3)
      (rank_jobs some_weights waiting 100
        (some (factors_of even_factor (waiting ++ held_job ∷ []))))
      (held_job ∷ [])
      100
      (schedule_cycle (engine_of 3) even_factor waiting (held_job ∷ []) 100 none).1.preempted_jobs
schedule_cycle-Victims_example =
    schedule_cycle-Victims (engine_of 3) even_factor waiting (held_job ∷ []) 100 none

selects_held :
    select_preemption_candidate (narrow_job ∷ held_job ∷ []) 8 100 (some ((1, 5) ∷ []))
    ≡ some held_job
unfolding select_preemption_candidate
selects_held = refl

select_preemption_candidate-cheapest_example :
    In held_job (narrow_job ∷ held_job ∷ [])
    × (held_job.user ≢ 8)
    × All
        (λ j. (j.user ≡ 8) ⊎ LosesNoMore 100 ((1, 5) ∷ []) held_job j)
        (narrow_job ∷ held_job ∷ [])
select_preemption_candidate-cheapest_example =
    select_preemption_candidate-cheapest (narrow_job ∷ held_job ∷ []) 8 100 ((1, 5) ∷ []) held_job
      selects_held

abbrev wide_window : ℕ
wide_window =
    anchor_reservation_window (engine_of 4) (cluster 4) ranked_wide (held_job ∷ []) 20 none none

wide_short : available_slots (cluster 4) < slots wide_job
unfolding available_slots
wide_short = omega arith

wide_in_all :
    slots wide_job
    ≤ available_slots (cluster 4)
      + freed_in_all (ends (engine_of 4) (cluster 4) ranked_wide (held_job ∷ []) 20 none none)
unfolding available_slots running_completion completions
wide_in_all = omega arith

anchor_reservation_window-IsEarliest_example :
    (slots wide_job
      ≤ available_slots (cluster 4)
        + freed_by wide_window
            (ends (engine_of 4) (cluster 4) ranked_wide (held_job ∷ []) 20 none none))
    × ((wide_window ≤ 44)
        ⊎ (available_slots (cluster 4)
              + freed_by 44
                  (ends (engine_of 4) (cluster 4) ranked_wide (held_job ∷ []) 20 none none)
            < slots wide_job))
anchor_reservation_window-IsEarliest_example =
    anchor_reservation_window-IsEarliest (engine_of 4) (cluster 4) ranked_wide (held_job ∷ []) 20
      none none 44 wide_short wide_in_all

rank_jobs-AreOrdered_example :
    AreOrdered Precedes (rank_jobs some_weights waiting 100 none)
    × Perm (jobs_of (rank_jobs some_weights waiting 100 none)) waiting
    × All (IsRated some_weights 100 none) (rank_jobs some_weights waiting 100 none)
rank_jobs-AreOrdered_example = rank_jobs-AreOrdered some_weights waiting 100 none

priority_aging_example :
    ((calculate_effective_priority some_weights wide_job 10 0).1
      ≤ (calculate_effective_priority some_weights wide_job 100_000 0).1)
    × ((calculate_effective_priority some_weights wide_job 100_000 0).1 ≤ unit)
    × ((calculate_effective_priority some_weights wide_job 10 0).0
        ≤ℤ (calculate_effective_priority some_weights wide_job 100_000 0).0)
priority_aging_example = priority_aging some_weights wide_job 0 10 100_000 (omega arith)
