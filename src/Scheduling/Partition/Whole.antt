-- ===== src/Scheduling/Partition/Whole.antt =====
-- scheduling.py: the whole cycle.
use mathlib.Core.List.{Perm, Nodup, append_assoc, append-nil, perm_middle}
use mathlib.Core.List.Perm
use hexaqueue.Prelude.{ℕ, ◌≡◌, sym, subst, Option, some, List, [], ◌∷◌, ◌++◌}
use hexaqueue.Prelude.Lists.{Distinct}
use hexaqueue.Prelude.Members.{Distinct-of_Nodup}
use hexaqueue.Prelude.Dict.{Dict}
use hexaqueue.Job.{JobSpec}
use hexaqueue.Scheduling.Priority.{RankedJob}
use hexaqueue.Scheduling.Ranking.{rank_jobs-perm}
use hexaqueue.Scheduling.Backfill.{evaluate_backfill}
use hexaqueue.Scheduling.Engine.{
  BatchSchedulerEngine, SchedulingDecision, TopAllocation, allocate_top_priority, Preempted,
  handle_monopoly_preemption,
}
use hexaqueue.Scheduling.Cycle.{
  ids, jobs_of, anchor_job, backfill_behind, handle_backfill, dispatch_ranked, schedule_cycle,
}
use hexaqueue.Scheduling.Cases.{handle_backfill_cases}
use hexaqueue.Scheduling.Partition.Parts.{ranked_ids, allocate_top_priority-keeps}
use hexaqueue.Scheduling.Partition.Backfill.{backfill_loop-Splits}
use hexaqueue.Scheduling.Partition.Preempt.{Keeps, handle_monopoly_preemption-Keeps}

Distinct-suffix : (xs ys : List JobSpec) → Distinct (ids (xs ++ ys)) → Distinct (ids ys)
Distinct-suffix [] ys d = d
Distinct-suffix (x ∷ xs) ys d = Distinct-suffix xs ys d.1

-- Backfilling only splits the jobs behind the anchor.
handle_backfill-Splits :
    (e : BatchSchedulerEngine) (s : Preempted) (running : List JobSpec) (now : ℕ)
    (durations : Option (Dict ℕ))
    → Distinct (ranked_ids s.remaining)
    → let b = handle_backfill e s running now durations in
      Perm (b.backfilled ++ jobs_of b.remaining) (jobs_of s.remaining)
handle_backfill-Splits e s running now durations d =
    handle_backfill_cases e s running now durations
      (λ b. Perm (b.backfilled ++ jobs_of b.remaining) (jobs_of s.remaining)) (Perm.refl _) behind
  where
    behind :
        (anchor : RankedJob)
        → s.anchor ≡ some anchor
        → let b = backfill_behind e s anchor running now durations in
          Perm (b.backfilled ++ jobs_of b.remaining) (jobs_of s.remaining)
    behind anchor a =
        unfold backfill_behind evaluate_backfill in backfill_loop-Splits _ _ _ _ s.remaining d

-- All jobs of a decision: started, backfilled, still waiting.
abbrev pub decided : SchedulingDecision → List JobSpec
decided d = d.to_run ++ (d.backfilled_jobs ++ d.remains_pending)

append_comm : (xs ys : List JobSpec) → Perm (xs ++ ys) (ys ++ xs)
append_comm [] ys = rw append-nil (Perm.refl ys)
append_comm (x ∷ xs) ys =
    Perm.trans (Perm.cons x (append_comm xs ys)) (Perm.symm (perm_middle ys xs))

regroup :
    (run back anchor rest rest' all : List JobSpec)
    → Perm (back ++ rest') rest
    → Perm (run ++ (anchor ++ rest)) all
    → Perm (run ++ (back ++ (anchor ++ rest'))) all
regroup run back anchor rest rest' all p q = Perm.trans (Perm.append_left run moved) q
  where
    moved : Perm (back ++ (anchor ++ rest')) (anchor ++ rest)
    moved = rw (← append_assoc) (
        Perm.trans (Perm.append_right rest' (append_comm back anchor))
          (rw append_assoc (Perm.append_left anchor p)))

dispatch_ranked-perm :
    (e : BatchSchedulerEngine) (ranked : List RankedJob) (running : List JobSpec) (now : ℕ)
    (durations : Option (Dict ℕ))
    → Distinct (ranked_ids ranked)
    → Perm (decided (dispatch_ranked e ranked running now durations).1) (jobs_of ranked)
unfolding dispatch_ranked
dispatch_ranked-perm e ranked running now durations d =
    regroup _ _ _ _ _ _ (handle_backfill-Splits e s running now durations kept.1)
      (subst (Perm _) whole kept.0)
  where
    t : TopAllocation
    t = allocate_top_priority e.pool ranked

    s : Preempted
    s = handle_monopoly_preemption e t running now

    whole : t.to_run ++ (anchor_job t.anchor ++ jobs_of t.remaining) ≡ jobs_of ranked
    whole = allocate_top_priority-keeps e.pool ranked

    kept : Keeps (t.to_run ++ (anchor_job t.anchor ++ jobs_of t.remaining)) s
    kept =
        handle_monopoly_preemption-Keeps e t running now
          (Distinct-suffix t.to_run _ (subst (λ js. Distinct (ids js)) (sym whole) d))

-- The jobs that a cycle starts, backfills and leaves waiting are exactly the pending jobs, each as
-- often as it was pending, if no two pending jobs have one identifier.
pub schedule_cycle-perm :
    (e : BatchSchedulerEngine) (factor : ℕ → ℕ) (pending running : List JobSpec) (now : ℕ)
    (durations : Option (Dict ℕ))
    → Nodup (ids pending)
    → Perm (decided (schedule_cycle e factor pending running now durations).1) pending
unfolding schedule_cycle
schedule_cycle-perm e factor [] running now durations n = Perm.refl []
schedule_cycle-perm e factor (job ∷ jobs) running now durations n =
    let p = rank_jobs-perm e.weights (job ∷ jobs) now _ in
    Perm.trans
      (dispatch_ranked-perm e _ running now durations
        (Distinct-of_Nodup _ (Perm.nodup (Perm.symm (Perm.map (λ j. j.id) p)) n)))
      p
