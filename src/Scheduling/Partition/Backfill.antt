-- ===== src/Scheduling/Partition/Backfill.antt =====
-- scheduling.py: the jobs that backfilling approves and those that stay.
use mathlib.Core.List.{Perm, perm_middle}
use mathlib.Core.List.Perm
use hexaqueue.Prelude.{
  ℕ, ◌≡◌, subst, inl, inr, Bool, false, not, List, [], ◌∷◌, ◌++◌, arith, leb, Bool-cases,
}
use hexaqueue.Prelude.Lists.{filter, member, Distinct, All, filter-congr}
use hexaqueue.Prelude.Members.{==_refl}
use hexaqueue.Prelude.Dict.{Dict}
use hexaqueue.Job.{JobSpec}
use hexaqueue.Scheduling.Pool.{ResourceSlotPool, can_fit, allocate}
use hexaqueue.Scheduling.Priority.{RankedJob}
use hexaqueue.Scheduling.Backfill.{estimate, backfill_loop}
use hexaqueue.Scheduling.Cycle.{ids, jobs_of}
use hexaqueue.Scheduling.Partition.Parts.{ranked_ids, backfill_loop-absent}

abbrev is_left : List JobSpec → RankedJob → Bool
is_left jobs r = not (member r.job.id (ids jobs))

-- The jobs and those of the queue that are not among them.
abbrev pub Splits : List JobSpec → List RankedJob → Type 0
Splits jobs rs = Perm (jobs ++ jobs_of (filter (is_left jobs) rs)) (jobs_of rs)

same_left :
    (jobs : List JobSpec) (job : JobSpec) (rs : List RankedJob)
    → member job.id (ranked_ids rs) ≡ false
    → All (λ r. is_left (job ∷ jobs) r ≡ is_left jobs r) rs
same_left jobs job [] h = tt
same_left jobs job (r ∷ rs) h = (ground arith, same_left jobs job rs (ground arith))

taken :
    (jobs : List JobSpec) (r : RankedJob) (rs : List RankedJob)
    → member r.job.id (ranked_ids rs) ≡ false
    → Splits jobs rs
    → Splits (r.job ∷ jobs) (r ∷ rs)
taken jobs r rs new h =
    rw
      (
        ==_refl r.job.id,
        filter-congr (is_left (r.job ∷ jobs)) (is_left jobs) rs (same_left jobs r.job rs new),
      )
      (Perm.cons r.job h)

skipped :
    (jobs : List JobSpec) (r : RankedJob) (rs : List RankedJob)
    → member r.job.id (ids jobs) ≡ false
    → Splits jobs rs
    → Splits jobs (r ∷ rs)
skipped jobs r rs new h = rw new (Perm.trans (perm_middle jobs _) (Perm.cons r.job h))

pub backfill_loop-Splits :
    (d : ℕ) (durations : Dict ℕ) (window : ℕ) (p : ResourceSlotPool) (rs : List RankedJob)
    → Distinct (ranked_ids rs)
    → Splits (backfill_loop d durations window p rs).1 rs
unfolding backfill_loop
backfill_loop-Splits d durations window p [] u = Perm.refl []
backfill_loop-Splits d durations window p (r ∷ rs) u =
    let left : List JobSpec = (backfill_loop d durations window p rs).1 in
    let more : List JobSpec = (backfill_loop d durations window (allocate p r.job).0 rs).1 in
    let stays =
      skipped left r rs (backfill_loop-absent d durations window r.job.id p rs u.0)
        (backfill_loop-Splits d durations window p rs u.1) in
    let split = λ (js : List JobSpec). Splits js (r ∷ rs) in
    elim (Bool-cases (can_fit p r.job)) [
      | inl fits ↦ elim (Bool-cases (leb (estimate durations d r.job) window)) [
        | inl short ↦ subst split {x = r.job ∷ more} (ground arith) (
            taken more r rs u.0
              (backfill_loop-Splits d durations window (allocate p r.job).0 rs u.1))
        | inr long ↦ subst split {x = left} (ground arith) stays
      ]
      | inr full ↦ subst split {x = left} (ground arith) stays
    ]
