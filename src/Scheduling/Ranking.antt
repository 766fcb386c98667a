-- ===== src/Scheduling/Ranking.antt =====
-- priority.py: the order of the ranked queue and the growth of a priority with the waiting time.
use mathlib.Core.List.{Perm}
use mathlib.Core.List.Perm
use native.Mathlib.Nat.{le-div_iff_mul-le, div-mul-le_self}
use hexaqueue.Prelude.{
  get_or, zero, suc, ◌-◌, min, ℕ, ◌*◌, ◌/◌, ◌≤◌, ◌<◌, ◌≡◌, ◌⊎◌, refl, true, false, List, [], ◌∷◌,
  map, Option, arith,
}
use hexaqueue.Prelude.Dict.{Dict, get}
use hexaqueue.Prelude.Lists.{All}
use hexaqueue.Prelude.Sort.{
  sort, sort-IsSorted, sort-perm, sort-All, AreOrdered, AreOrdered-of_sorted,
}
use hexaqueue.Prelude.Int.{◌≤ℤ◌, ◌<ℤ◌, eq_of_parts, int_laws}
use hexaqueue.Job.{JobSpec}
use hexaqueue.Scheduling.Priority.{
  PriorityWeights, unit, RankedJob, calculate_effective_priority, rank_job, ranks_before, rank_jobs,
}
use hexaqueue.Scheduling.Cycle.{jobs_of}

ranks_before-total : (r s : RankedJob) → ranks_before r s ≡ false → ranks_before s r ≡ true
unfolding ranks_before
ranks_before-total r s h = ground arith

ranks_before_trans :
    (r s t : RankedJob)
    → ranks_before r s ≡ true
    → ranks_before s t ≡ true
    → ranks_before r t ≡ true
unfolding ranks_before
ranks_before_trans r s t h k = ground arith

-- A ranked job comes before another: its priority is higher, or equal and it was created earlier, or
-- at the same time with no greater identifier.
abbrev pub Precedes : RankedJob → RankedJob → Type 0
Precedes r s =
    (s.effective_priority <ℤ r.effective_priority)
    ⊎ ((s.effective_priority ≡ r.effective_priority)
        × ((r.job.created_at < s.job.created_at)
            ⊎ ((r.job.created_at ≡ s.job.created_at) × (r.job.id ≤ s.job.id))))

ranks_before→Precedes : (r s : RankedJob) → ranks_before r s ≡ true → Precedes r s
unfolding ranks_before
ranks_before→Precedes r s h = ground (arith, eq_of_parts s.effective_priority r.effective_priority)

jobs_of-rank :
    (w : PriorityWeights) (now : ℕ) (factors : Dict ℕ) (jobs : List JobSpec)
    → jobs_of (map (rank_job w now factors) jobs) ≡ jobs
unfolding rank_job
jobs_of-rank w now factors [] = refl
jobs_of-rank w now factors (j ∷ js) = rw (jobs_of-rank w now factors js)

pub rank_jobs-perm :
    (w : PriorityWeights) (jobs : List JobSpec) (now : ℕ) (factors : Option (Dict ℕ))
    → Perm (jobs_of (rank_jobs w jobs now factors)) jobs
unfolding rank_jobs
rank_jobs-perm w jobs now factors =
    let d = get_or factors [] in
    let p : Perm (jobs_of (sort ranks_before (map (rank_job w now d) jobs)))
        (jobs_of (map (rank_job w now d) jobs)) =
      Perm.map (λ r. r.job) (sort-perm ranks_before (map (rank_job w now d) jobs)) in
    rw (jobs_of-rank w now d jobs) at p

-- The priority of a ranked job is the one that is computed for it, at the time of the ranking and with
-- the factor of its user, which is one where none is given.
abbrev pub IsRated : PriorityWeights → ℕ → Option (Dict ℕ) → RankedJob → Type 0
IsRated w now factors r =
    r.effective_priority
    ≡ (calculate_effective_priority w r.job now
        (get_or (get r.job.user (get_or factors [])) unit)).0

rank_job-IsRated :
    (w : PriorityWeights) (now : ℕ) (factors : Option (Dict ℕ)) (jobs : List JobSpec)
    → All (IsRated w now factors) (map (rank_job w now (get_or factors [])) jobs)
unfolding rank_job
rank_job-IsRated w now factors [] = tt
rank_job-IsRated w now factors (job ∷ jobs) = (refl, rank_job-IsRated w now factors jobs)

-- Ranking keeps every job, as often as it was given, with the priority that is computed for it; and of
-- two ranked jobs the earlier has the higher priority, or at equal priorities was created earlier, or
-- at equal times has the smaller identifier or the same.
pub rank_jobs-AreOrdered :
    (w : PriorityWeights) (jobs : List JobSpec) (now : ℕ) (factors : Option (Dict ℕ))
    → AreOrdered Precedes (rank_jobs w jobs now factors)
      × Perm (jobs_of (rank_jobs w jobs now factors)) jobs
      × All (IsRated w now factors) (rank_jobs w jobs now factors)
unfolding rank_jobs
rank_jobs-AreOrdered w jobs now factors =
    let ranked = map (rank_job w now (get_or factors [])) jobs in
    (
      AreOrdered-of_sorted ranks_before Precedes ranks_before→Precedes (sort ranks_before ranked)
          (sort-IsSorted ranks_before ranks_before-total ranks_before_trans ranked),
      rank_jobs-perm w jobs now factors,
      sort-All ranks_before (IsRated w now factors) ranked (rank_job-IsRated w now factors jobs),
    )

div_mono : (a b k : ℕ) → a ≤ b → a / k ≤ b / k
div_mono a b zero h = grind arith
div_mono a b (suc k) h =
    (le-div_iff_mul-le (omega arith)).1 (omega (arith, div-mul-le_self a (suc k)))

mul_mono : (a b k : ℕ) → a ≤ b → k * a ≤ k * b
mul_mono a b k h = grind arith

-- A later ranking of a job, with the same fair-share factor, gives it no lower age factor, which is
-- at most one, and no lower priority.
pub priority_aging :
    (w : PriorityWeights) (job : JobSpec) (fairshare now later : ℕ)
    → now ≤ later
    → ((calculate_effective_priority w job now fairshare).1
        ≤ (calculate_effective_priority w job later fairshare).1)
      × ((calculate_effective_priority w job later fairshare).1 ≤ unit)
      × ((calculate_effective_priority w job now fairshare).0
          ≤ℤ (calculate_effective_priority w job later fairshare).0)
unfolding calculate_effective_priority
priority_aging w job fairshare now later h = (grown, omega arith, omega (int_laws, weighted))
  where
    aged :
        (now - job.created_at) * unit / w.max_age_seconds
        ≤ (later - job.created_at) * unit / w.max_age_seconds
    aged = div_mono _ _ w.max_age_seconds (omega arith)

    age : ℕ → ℕ
    age t = min unit ((t - job.created_at) * unit / w.max_age_seconds)

    grown : age now ≤ age later
    grown = omega (arith, aged)

    weighted : w.weight_age * age now / unit ≤ w.weight_age * age later / unit
    weighted = div_mono _ _ unit (mul_mono (age now) (age later) w.weight_age grown)
