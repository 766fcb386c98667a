-- ===== src/Scheduling/Victims.antt =====
-- scheduling.py: which job is preempted, and for whom.
use hexaqueue.Prelude.{
  ℕ, ◌-◌, ◌≤◌, ◌≡◌, ◌≢◌, refl, ap, ◌⊎◌, inl, inr, true, Option, some, List, [], ◌∷◌, ◌++◌, arith,
  Bool-cases,
}
use hexaqueue.Prelude.Members.{In}
use hexaqueue.Prelude.Dict.{Dict}
use hexaqueue.Job.{JobSpec}
use hexaqueue.Scheduling.Pool.{ResourceSlotPool, can_fit, allocate}
use hexaqueue.Scheduling.Priority.{RankedJob, rank_jobs}
use hexaqueue.Scheduling.Preemption.{PreemptionPolicy, is_starved}
use hexaqueue.Scheduling.Engine.{
  BatchSchedulerEngine, TopAllocation, allocate_top_priority, preempt,
}
use hexaqueue.Scheduling.Cycle.{jobs_of, dispatch_ranked, schedule_cycle, factors_of}
use hexaqueue.Scheduling.Cases.{handle_monopoly_preemption_cases}
use hexaqueue.Scheduling.Partition.Parts.{find_starved_job-In}
use hexaqueue.Scheduling.Selection.{select_preemption_candidate-cheapest}

In-jobs_of : (s : RankedJob) (rs : List RankedJob) → In s rs → In s.job (jobs_of rs)
In-jobs_of s [] i = absurd i
In-jobs_of s (r ∷ rs) (inl e) = inl (ap (λ x. x.job) e)
In-jobs_of s (r ∷ rs) (inr i) = inr (In-jobs_of s rs i)

-- The anchor and the jobs behind it are ranked jobs.
In-anchored :
    (s a : RankedJob) (p : ResourceSlotPool) (rs : List RankedJob)
    → (allocate_top_priority p rs).anchor ≡ some a
    → In s (a ∷ (allocate_top_priority p rs).remaining)
    → In s rs
unfolding allocate_top_priority
In-anchored s a p [] e i = cc
In-anchored s a p (r ∷ rs) e i = elim (Bool-cases (can_fit p r.job)) [
  | inl fits ↦ inr (In-anchored s a (allocate p r.job).0 rs (rw fits at e) (rw fits at i))
  | inr full ↦
      let e' : some r ≡ some a = rw full at e in
      let i' : (s ≡ a) ⊎ In s rs = rw full at i in ground arith
]

-- The preempted jobs of a decision: none, or one running job, of another user than the ranked job
-- that it makes room for, which has waited for the grace period and is entitled.
abbrev pub Victims :
    BatchSchedulerEngine → List RankedJob → List JobSpec → ℕ → List (ℕ × ℕ) → Type 0
Victims e ranked running now preempted =
    (preempted ≡ [])
    ⊎ ((c : JobSpec) × (s : RankedJob) × (preempted ≡ (c.id, s.job.user) ∷ [])
        × In c running
        × (c.user ≢ s.job.user)
        × In s ranked
        × (e.policy.grace_period_seconds ≤ now - s.job.created_at)
        × (e.policy.starvation_deficit_threshold ≤ s.fairshare_factor))

starved_waits :
    (policy : PreemptionPolicy) (now : ℕ) (s : RankedJob)
    → is_starved policy now s ≡ true
    → (policy.grace_period_seconds ≤ now - s.job.created_at)
      × (policy.starvation_deficit_threshold ≤ s.fairshare_factor)
unfolding is_starved
starved_waits policy now s h = ground arith

preempt_victim :
    (t : TopAllocation) (a s : RankedJob) (c : JobSpec)
    → (preempt t a s c).to_preempt ≡ (c.id, s.job.user) ∷ []
unfolding preempt
preempt_victim t a s c = ground arith

dispatch_ranked-Victims :
    (e : BatchSchedulerEngine) (ranked : List RankedJob) (running : List JobSpec) (now : ℕ)
    (durations : Option (Dict ℕ))
    → Victims e ranked running now (dispatch_ranked e ranked running now durations).1.preempted_jobs
unfolding dispatch_ranked
dispatch_ranked-Victims e ranked running now durations =
    handle_monopoly_preemption_cases e (allocate_top_priority e.pool ranked) running now
      (λ s. Victims e ranked running now s.to_preempt) (inl refl)
      λ a s c w.
        let (i, starves) = find_starved_job-In e.policy _ now s w.starves in
        let (runs, other, _) =
          select_preemption_candidate-cheapest running s.job.user now e.start_times c w.selected in
        let (waits, entitled) = starved_waits e.policy now s starves in
        inr (
          c,
          s,
          preempt_victim _ a s c,
          runs,
          other,
          In-anchored s a e.pool ranked w.anchored i,
          waits,
          entitled,
        )

-- A cycle preempts no job, or one running job for a pending job of another user that has waited for
-- the grace period and whose fair-share factor reaches the threshold.
pub schedule_cycle-Victims :
    (e : BatchSchedulerEngine) (factor : ℕ → ℕ) (pending running : List JobSpec) (now : ℕ)
    (durations : Option (Dict ℕ))
    → let ranked =
        rank_jobs e.weights pending now (some (factors_of factor (pending ++ running))) in
      Victims e ranked running now
        (schedule_cycle e factor pending running now durations).1.preempted_jobs
unfolding schedule_cycle
schedule_cycle-Victims e factor [] running now durations = inl refl
schedule_cycle-Victims e factor (job ∷ jobs) running now durations =
    dispatch_ranked-Victims e _ running now durations
