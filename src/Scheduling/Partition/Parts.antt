-- ===== src/Scheduling/Partition/Parts.antt =====
-- scheduling.py: what each step of the cycle does with the jobs that it is given.
use mathlib.Core.List.{Perm}
use mathlib.Core.List.Perm
use hexaqueue.Prelude.{
  ℕ, ◌≡◌, refl, sym, ap, subst, inl, inr, Bool, true, false, not, some, List, [], ◌∷◌, ◌++◌, arith,
  ◌==◌, Bool-cases,
}
use hexaqueue.Prelude.Lists.{filter, member, Distinct}
use hexaqueue.Prelude.Members.{In, ne_of_member, ==_refl}
use hexaqueue.Prelude.Dict.{Dict}
use hexaqueue.Scheduling.Pool.{ResourceSlotPool, can_fit, allocate}
use hexaqueue.Scheduling.Priority.{RankedJob}
use hexaqueue.Scheduling.Preemption.{PreemptionPolicy, is_starved, find_starved_job}
use hexaqueue.Scheduling.Backfill.{backfill_loop}
use hexaqueue.Scheduling.Engine.{allocate_top_priority}
use hexaqueue.Scheduling.Cycle.{ids, jobs_of, anchor_job}

-- The identifiers of ranked jobs.
abbrev pub ranked_ids : List RankedJob → List ℕ
ranked_ids rs = ids (jobs_of rs)

abbrev pub not_id : ℕ → RankedJob → Bool
not_id k r = not (r.job.id == k)

-- The jobs to run, the anchor and the rest stand in the order of the ranked queue.
pub allocate_top_priority-keeps :
    (p : ResourceSlotPool) (rs : List RankedJob)
    → let t = allocate_top_priority p rs in
      t.to_run ++ (anchor_job t.anchor ++ jobs_of t.remaining) ≡ jobs_of rs
unfolding allocate_top_priority
allocate_top_priority-keeps p [] = refl
allocate_top_priority-keeps p (r ∷ rs) = elim (Bool-cases (can_fit p r.job)) [
  | inl fits ↦ rw fits (ap (◌∷◌ r.job) (allocate_top_priority-keeps (allocate p r.job).0 rs))
  | inr full ↦ rw full
]

-- A starved job is one of the candidates, and meets both tests.
pub find_starved_job-In :
    (policy : PreemptionPolicy) (rs : List RankedJob) (now : ℕ) (s : RankedJob)
    → find_starved_job policy rs now ≡ some s
    → In s rs × (is_starved policy now s ≡ true)
unfolding find_starved_job
find_starved_job-In policy [] now s e = cc
find_starved_job-In policy (r ∷ rs) now s e = elim (Bool-cases (is_starved policy now r)) [
  | inl hit ↦
      let e' : some r ≡ some s = rw hit at e in let same : s ≡ r = cc in (inl same, rw same hit)
  | inr miss ↦ let (i, ok) = find_starved_job-In policy rs now s (rw miss at e) in (inr i, ok)
]

pub member_of_In :
    (s : RankedJob) (rs : List RankedJob) → In s rs → member s.job.id (ranked_ids rs) ≡ true
member_of_In s [] i = absurd i
member_of_In s (r ∷ rs) (inl e) = ground arith
member_of_In s (r ∷ rs) (inr i) = ground (arith, member_of_In s rs i)

pub filter_absent :
    (k : ℕ) (rs : List RankedJob) → member k (ranked_ids rs) ≡ false → filter (not_id k) rs ≡ rs
filter_absent k [] h = refl
filter_absent k (r ∷ rs) h = ground (arith, filter_absent k rs)

-- Taking out a job by its identifier takes out that job alone.
pub pull-perm :
    (s : RankedJob) (rs : List RankedJob)
    → In s rs
    → Distinct (ranked_ids rs)
    → Perm (s.job ∷ jobs_of (filter (not_id s.job.id) rs)) (jobs_of rs)
pull-perm s [] i d = absurd i
pull-perm s (r ∷ rs) (inl e) d =
    subst (λ x. Perm (x.job ∷ jobs_of (filter (not_id x.job.id) (r ∷ rs))) (jobs_of (r ∷ rs)))
      (sym e) (rw (==_refl r.job.id, filter_absent r.job.id rs d.0) (Perm.refl (jobs_of (r ∷ rs))))
pull-perm s (r ∷ rs) (inr i) d =
    rw (ne_of_member r.job.id s.job.id (ranked_ids rs) d.0 (member_of_In s rs i))
      (Perm.trans (Perm.swap r.job s.job _) (Perm.cons r.job (pull-perm s rs i d.1)))

absent_filter :
    (p : RankedJob → Bool) (k : ℕ) (rs : List RankedJob)
    → member k (ranked_ids rs) ≡ false
    → member k (ranked_ids (filter p rs)) ≡ false
absent_filter p k [] h = refl
absent_filter p k (r ∷ rs) h = ground (arith, absent_filter p k rs)

pub Distinct-filter :
    (p : RankedJob → Bool) (rs : List RankedJob)
    → Distinct (ranked_ids rs)
    → Distinct (ranked_ids (filter p rs))
Distinct-filter p [] d = tt
Distinct-filter p (r ∷ rs) d = elim (Bool-cases (p r)) [
  | inl e ↦ rw e (absent_filter p r.job.id rs d.0, Distinct-filter p rs d.1)
  | inr e ↦ rw e (Distinct-filter p rs d.1)
]

-- The jobs that a loop of backfilling approves are jobs of its list.
pub backfill_loop-absent :
    (d : ℕ) (durations : Dict ℕ) (window k : ℕ) (p : ResourceSlotPool) (rs : List RankedJob)
    → member k (ranked_ids rs) ≡ false
    → member k (ids (backfill_loop d durations window p rs).1) ≡ false
unfolding backfill_loop
backfill_loop-absent d durations window k p [] h = refl
backfill_loop-absent d durations window k p (r ∷ rs) h = ground (
  arith,
  backfill_loop-absent d durations window k p rs,
  backfill_loop-absent d durations window k (allocate p r.job).0 rs,
)
