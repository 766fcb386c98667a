-- ===== src/Scheduling/Partition/Preempt.antt =====
-- scheduling.py: what preemption does with the waiting jobs.
use mathlib.Core.List.{Perm, append_assoc}
use mathlib.Core.List.Perm
use hexaqueue.Prelude.{
  ℕ, ◌≡◌, sym, subst, ◌⊎◌, inl, inr, true, false, Option, none, some, List, ◌∷◌, ◌++◌, arith, ◌==◌,
  ==_iff, Bool-cases,
}
use hexaqueue.Prelude.Lists.{Distinct}
use hexaqueue.Prelude.Members.{In}
use hexaqueue.Job.{JobSpec}
use hexaqueue.Scheduling.Pool.{can_fit, release}
use hexaqueue.Scheduling.Priority.{RankedJob}
use hexaqueue.Scheduling.Engine.{
  BatchSchedulerEngine, TopAllocation, Preempted, preempt, handle_monopoly_preemption,
}
use hexaqueue.Scheduling.Cycle.{ids, jobs_of, anchor_job}
use hexaqueue.Scheduling.Cases.{handle_monopoly_preemption_cases}
use hexaqueue.Scheduling.Partition.Parts.{
  ranked_ids, member_of_In, pull-perm, Distinct-filter, find_starved_job-In,
}

-- The jobs to run and those that wait are the given jobs, and those behind the anchor are distinct.
abbrev pub Keeps : List JobSpec → Preempted → Type 0
Keeps all s =
    Perm (s.to_run ++ (anchor_job s.anchor ++ jobs_of s.remaining)) all
    × Distinct (ranked_ids s.remaining)

-- The anchor is the starved job exactly when their identifiers are equal.
anchor_starved :
    (anchor starved : RankedJob) (rest : List RankedJob)
    → In starved (anchor ∷ rest)
    → Distinct (ranked_ids (anchor ∷ rest))
    → ((starved ≡ anchor) × ((anchor.job.id == starved.job.id) ≡ true))
      ⊎ (In starved rest × ((anchor.job.id == starved.job.id) ≡ false))
anchor_starved anchor starved rest (inl e) d = inl (e, ground arith)
anchor_starved anchor starved rest (inr i) d = inr (i, ground (arith, differ))
  where
    differ : (anchor.job.id == starved.job.id) ≡ false
    differ = elim (Bool-cases (anchor.job.id == starved.job.id)) [
      | inl e ↦
          let q : anchor.job.id ≡ starved.job.id = (==_iff _ _).0 e in
          let p = member_of_In starved rest i in absurd (cc (d.0, p, q))
      | inr e ↦ e
    ]

preempt-Keeps :
    (t : TopAllocation) (anchor starved : RankedJob) (candidate : JobSpec)
    → t.anchor ≡ some anchor
    → In starved (anchor ∷ t.remaining)
    → Distinct (ranked_ids (anchor ∷ t.remaining))
    → Keeps (t.to_run ++ (anchor.job ∷ jobs_of t.remaining)) (preempt t anchor starved candidate)
unfolding preempt
preempt-Keeps t anchor starved candidate a i d =
    elim (Bool-cases (can_fit (release t.pool candidate.id).0 starved.job)) [
      | inr full ↦ rw (full, a) (Perm.refl _, d.1)
      | inl fits ↦ elim (anchor_starved anchor starved t.remaining i d) [
        | inl (same, eq) ↦ rw (fits, eq) (rw (append_assoc, same) (Perm.refl _), d.1)
        | inr (behind, ne) ↦
            rw (fits, ne)
              (
                rw append_assoc (
                    Perm.append_left t.to_run (
                      Perm.trans (Perm.swap anchor.job starved.job _)
                        (Perm.cons anchor.job (pull-perm starved t.remaining behind d.1)))),
                Distinct-filter _ t.remaining d.1,
              )
      ]
    ]

Distinct-behind :
    (a : Option RankedJob) (rest : List RankedJob)
    → Distinct (ids (anchor_job a ++ jobs_of rest))
    → Distinct (ranked_ids rest)
Distinct-behind none rest d = d
Distinct-behind (some anchor) rest d = d.1

pub handle_monopoly_preemption-Keeps :
    (e : BatchSchedulerEngine) (t : TopAllocation) (running : List JobSpec) (now : ℕ)
    → Distinct (ids (anchor_job t.anchor ++ jobs_of t.remaining))
    → Keeps
        (t.to_run ++ (anchor_job t.anchor ++ jobs_of t.remaining))
        (handle_monopoly_preemption e t running now)
handle_monopoly_preemption-Keeps e t running now d =
    let all : List JobSpec = t.to_run ++ (anchor_job t.anchor ++ jobs_of t.remaining) in
    handle_monopoly_preemption_cases e t running now (Keeps all)
      (Perm.refl all, Distinct-behind t.anchor t.remaining d)
      λ anchor starved candidate c.
        let a : t.anchor ≡ some anchor = c.anchored in
        let d' : Distinct (ranked_ids (anchor ∷ t.remaining)) = rw a at d in
        let (i, _) = find_starved_job-In e.policy (anchor ∷ t.remaining) now starved c.starves in
        subst
          (λ x.
            Keeps (t.to_run ++ (anchor_job x ++ jobs_of t.remaining))
              (preempt t anchor starved candidate))
          (sym a) (preempt-Keeps t anchor starved candidate a i d')
