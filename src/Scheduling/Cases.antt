-- ===== src/Scheduling/Cases.antt =====
-- scheduling.py: the ways in which the preemption and backfill steps of a cycle can go.
use hexaqueue.Prelude.{
  ℕ, ◌≡◌, inl, inr, ◌==◌, Option, some, List, [], ◌∷◌, arith, ltb, Bool-cases, Option-cases,
}
use hexaqueue.Prelude.Dict.{Dict}
use hexaqueue.Job.{JobSpec}
use hexaqueue.Scheduling.Pool.{available_slots}
use hexaqueue.Scheduling.Priority.{RankedJob}
use hexaqueue.Scheduling.Preemption.{find_starved_job, select_preemption_candidate}
use hexaqueue.Scheduling.Engine.{
  BatchSchedulerEngine, TopAllocation, Preempted, unchanged, preempt, preempt_for,
  handle_monopoly_preemption,
}
use hexaqueue.Scheduling.Cycle.{Backfilled, backfill_behind, handle_backfill}

module _ (e : BatchSchedulerEngine) (t : TopAllocation) (running : List JobSpec) (now : ℕ) where
  -- What holds when a candidate is preempted for a starved job.
  pub record Preempts (anchor starved : RankedJob) (candidate : JobSpec) : Type 0 where
    pub anchored : t.anchor ≡ some anchor
    pub full : available_slots t.pool ≡ 0
    pub starves : find_starved_job e.policy (anchor ∷ t.remaining) now ≡ some starved
    pub selected :
        select_preemption_candidate running starved.job.user now (some e.start_times)
        ≡ some candidate

  pub handle_monopoly_preemption_cases {ℓ} :
      (P : Preempted → Type ℓ)
      → P (unchanged t)
      → ((anchor starved : RankedJob) (candidate : JobSpec)
          → Preempts anchor starved candidate
          → P (preempt t anchor starved candidate))
      → P (handle_monopoly_preemption e t running now)
  unfolding handle_monopoly_preemption
  handle_monopoly_preemption_cases P same freed = elim (Option-cases t.anchor) [
    | inl a ↦ rw (a, handle_monopoly_preemption) same
    | inr (anchor, a) ↦
        rw (a, handle_monopoly_preemption)
          (elim (Bool-cases (ltb 0 (available_slots t.pool))) [
            | inl room ↦ rw (room, preempt_for) same
            | inr full ↦
                rw (full, preempt_for)
                  (elim (Option-cases (find_starved_job e.policy (anchor ∷ t.remaining) now)) [
                    | inl f ↦ rw (f, preempt_for) same
                    | inr (starved, f) ↦
                        rw (f, preempt_for)
                          (elim (Option-cases (
                            select_preemption_candidate running starved.job.user now
                              (some e.start_times))) [
                                | inl c ↦ rw (c, preempt_for) same
                                | inr (candidate, c) ↦
                                    rw (c, preempt_for)
                                      (freed anchor starved candidate (record {
                                        anchored = a;
                                        full = ground arith;
                                        starves = f;
                                        selected = c;
                                      }))
                              ])
                  ])
          ])
  ]

pub handle_backfill_cases {ℓ} :
    (e : BatchSchedulerEngine) (s : Preempted) (running : List JobSpec) (now : ℕ)
    (durations : Option (Dict ℕ)) (P : Backfilled → Type ℓ)
    → P (record { pool = s.pool; backfilled = []; remaining = s.remaining })
    → ((anchor : RankedJob)
        → s.anchor ≡ some anchor
        → P (backfill_behind e s anchor running now durations))
    → P (handle_backfill e s running now durations)
unfolding handle_backfill
handle_backfill_cases e s running now durations P none_taken taken = elim (Option-cases s.anchor) [
  | inl a ↦ rw (a, handle_backfill) none_taken
  | inr (anchor, a) ↦
      rw (a, handle_backfill)
        (elim (Bool-cases (available_slots s.pool == 0)) [
          | inl full ↦ rw full none_taken
          | inr room ↦ rw room (taken anchor a)
        ])
]
