-- ===== src/Scheduling/Conservation.antt =====
-- scheduling.py: the slots in use against the slots of the cluster.
use hexaqueue.Prelude.{
  ℕ, ◌+◌, ◌≤◌, ◌≡◌, inl, inr, true, Option, none, some, List, [], ◌∷◌, arith, Bool-cases,
}
use hexaqueue.Prelude.Dict.{
  Dict, get, sum_by-put-le, sum_by-put_new, sum_by-del-le, del-put_new, get-put_self,
}
use hexaqueue.Job.{JobSpec, slots}
use hexaqueue.Scheduling.Pool.{ResourceSlotPool, used_slots, can_fit, allocate, release, make_pool}
use hexaqueue.Scheduling.Priority.{RankedJob}
use hexaqueue.Scheduling.Backfill.{backfill_loop, evaluate_backfill}
use hexaqueue.Scheduling.Engine.{
  BatchSchedulerEngine, TopAllocation, allocate_top_priority, Preempted, preempt,
  handle_monopoly_preemption,
}
use hexaqueue.Scheduling.Cycle.{handle_backfill, dispatch_ranked, schedule_cycle}

-- A pool of `total` slots that holds no more jobs than fit.
pub record IsConserved (total : ℕ) (p : ResourceSlotPool) : Type 0 where
  pub capacity : p.total_slots ≡ total
  pub within : used_slots p ≤ total

make_pool-IsConserved :
    (total : ℕ) (cpus : Option ℕ) (p : ResourceSlotPool)
    → make_pool total cpus ≡ some p
    → IsConserved total p
unfolding make_pool used_slots
make_pool-IsConserved total cpus p e = ground arith

module _ (total : ℕ) where
  pub allocate-IsConserved :
      (p : ResourceSlotPool) (job : JobSpec)
      → IsConserved total p
      → IsConserved total (allocate p job).0
  unfolding allocate used_slots
  allocate-IsConserved p job h = ground (arith, sum_by-put-le slots job.id job p.allocated_jobs)

  pub release-IsConserved :
      (p : ResourceSlotPool) (job_id : ℕ)
      → IsConserved total p
      → IsConserved total (release p job_id).0
  unfolding release used_slots
  release-IsConserved p job_id h = ground (arith, sum_by-del-le slots job_id p.allocated_jobs)

  allocate_top-IsConserved :
      (p : ResourceSlotPool) (ranked : List RankedJob)
      → IsConserved total p
      → IsConserved total (allocate_top_priority p ranked).pool
  unfolding allocate_top_priority
  allocate_top-IsConserved p [] h = h
  allocate_top-IsConserved p (r ∷ rs) h = elim (Bool-cases (can_fit p r.job)) [
    | inl fits ↦
        rw fits (allocate_top-IsConserved (allocate p r.job).0 rs (allocate-IsConserved p r.job h))
    | inr full ↦ rw full h
  ]

  backfill_loop-IsConserved :
      (d : ℕ) (durations : Dict ℕ) (window : ℕ) (p : ResourceSlotPool) (rs : List RankedJob)
      → IsConserved total p
      → IsConserved total (backfill_loop d durations window p rs).0
  unfolding backfill_loop
  backfill_loop-IsConserved d durations window p [] h = h
  backfill_loop-IsConserved d durations window p (r ∷ rs) h = ground (
    arith,
    backfill_loop-IsConserved d durations window p rs h,
    backfill_loop-IsConserved d durations window (allocate p r.job).0 rs
        (allocate-IsConserved p r.job h),
  )

  preempt-IsConserved :
      (t : TopAllocation) (anchor starved : RankedJob) (candidate : JobSpec)
      → IsConserved total t.pool
      → IsConserved total (preempt t anchor starved candidate).pool
  unfolding preempt
  preempt-IsConserved t anchor starved candidate h =
      let freed = release-IsConserved t.pool candidate.id h in
      ground (arith, freed, allocate-IsConserved (release t.pool candidate.id).0 starved.job freed)

  handle_monopoly_preemption-IsConserved :
      (e : BatchSchedulerEngine) (t : TopAllocation) (running : List JobSpec) (now : ℕ)
      → IsConserved total t.pool
      → IsConserved total (handle_monopoly_preemption e t running now).pool
  unfolding handle_monopoly_preemption
  handle_monopoly_preemption-IsConserved e t running now h = grind (arith, preempt-IsConserved)

  handle_backfill-IsConserved :
      (e : BatchSchedulerEngine) (s : Preempted) (running : List JobSpec) (now : ℕ)
      (durations : Option (Dict ℕ))
      → IsConserved total s.pool
      → IsConserved total (handle_backfill e s running now durations).pool
  unfolding handle_backfill evaluate_backfill
  handle_backfill-IsConserved e s running now durations h = grind (arith, backfill_loop-IsConserved)

  pub dispatch_ranked-IsConserved :
      (e : BatchSchedulerEngine) (ranked : List RankedJob) (running : List JobSpec) (now : ℕ)
      (durations : Option (Dict ℕ))
      → IsConserved total e.pool
      → IsConserved total (dispatch_ranked e ranked running now durations).0.pool
  unfolding dispatch_ranked
  dispatch_ranked-IsConserved e ranked running now durations h =
      handle_backfill-IsConserved e _ running now durations (
        handle_monopoly_preemption-IsConserved e _ running now
          (allocate_top-IsConserved e.pool ranked h))

  -- A scheduling cycle on a pool within its capacity leaves it within the same capacity, whatever
  -- jobs are pending or running and whatever the clock, the fair-share factors and the estimates.
  pub schedule_cycle-IsConserved :
      (e : BatchSchedulerEngine) (factor : ℕ → ℕ) (pending running : List JobSpec) (now : ℕ)
      (durations : Option (Dict ℕ))
      → IsConserved total e.pool
      → IsConserved total (schedule_cycle e factor pending running now durations).0.pool
  unfolding schedule_cycle
  schedule_cycle-IsConserved e factor [] running now durations h = h
  schedule_cycle-IsConserved e factor (job ∷ jobs) running now durations h =
      dispatch_ranked-IsConserved e _ running now durations h

-- A job that is not allocated and fits takes exactly its slots, and releasing it gives the pool back
-- as it was.
pub release-allocate :
    (p : ResourceSlotPool) (job : JobSpec)
    → get job.id p.allocated_jobs ≡ none
    → can_fit p job ≡ true
    → (used_slots (allocate p job).0 ≡ used_slots p + slots job)
      × (release (allocate p job).0 job.id ≡ (p, true))
unfolding allocate release used_slots
release-allocate p job fresh fits = ground (
  arith,
  sum_by-put_new slots job.id job p.allocated_jobs,
  get-put_self job.id job p.allocated_jobs,
  del-put_new job.id job p.allocated_jobs,
)
