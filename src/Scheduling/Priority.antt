-- ===== src/Scheduling/Priority.antt =====
-- priority.py. A float is a fixed-point number: a whole number of millionths (`unit` is 1.0), with
-- products and quotients rounded down. Times are whole ticks.
use hexaqueue.Prelude.{
  ℕ, ◌-◌, ◌*◌, ◌/◌, min, Bool, true, false, not, ◌&&◌, Option, List, [], map, leb, ltb, ◌==◌,
  if◌then◌else◌, get_or,
}
use hexaqueue.Prelude.Dict.{Dict, get}
use hexaqueue.Prelude.Sort.{sort}
use hexaqueue.Prelude.Int.{ℤ, pos, ◌+ℤ◌, ◌*ℤ◌, ltb_ℤ}
use hexaqueue.Job.{JobSpec}

abbrev pub unit : ℕ
unit = 1_000_000

pub record PriorityWeights : Type 0 where
  pub max_age_seconds : ℕ
  pub weight_age : ℕ
  pub weight_base_priority : ℕ
  pub weight_fairshare : ℕ

-- `validate_invariants` with the bound on `max_age_seconds`: false is a ValueError.
unfoldable pub weights_valid : PriorityWeights → Bool
weights_valid w =
    ltb 0 w.max_age_seconds
    && not (w.weight_age == 0 && (w.weight_fairshare == 0 && w.weight_base_priority == 0))

pub record RankedJob : Type 0 where
  pub age_factor : ℕ
  pub effective_priority : ℤ
  pub fairshare_factor : ℕ
  pub job : JobSpec

unfoldable pub calculate_effective_priority : PriorityWeights → JobSpec → ℕ → ℕ → ℤ × ℕ
calculate_effective_priority w job current_timestamp fairshare_factor =
    let wait_seconds = current_timestamp - job.created_at in
    let age_factor = min unit (wait_seconds * unit / w.max_age_seconds) in
    let prio =
      pos (w.weight_age * age_factor / unit)
      +ℤ pos (w.weight_fairshare * fairshare_factor / unit)
      +ℤ pos w.weight_base_priority *ℤ job.priority
      +ℤ job.priority_bonus in
    (prio, age_factor)

-- The body of the loop of `rank_jobs`.
unfoldable pub rank_job : PriorityWeights → ℕ → Dict ℕ → JobSpec → RankedJob
rank_job w current_timestamp factors job =
    let fs_factor = get_or (get job.user factors) unit in
    let (prio, age) = calculate_effective_priority w job current_timestamp fs_factor in
    record { age_factor = age; effective_priority = prio; fairshare_factor = fs_factor; job = job }

-- The order of the sort keys `(-effective_priority, created_at, id)`.
unfoldable pub ranks_before : RankedJob → RankedJob → Bool
ranks_before r s =
    if ltb_ℤ s.effective_priority r.effective_priority
    then true
    else if ltb_ℤ r.effective_priority s.effective_priority
    then false
    else if ltb r.job.created_at s.job.created_at
    then true
    else if ltb s.job.created_at r.job.created_at
    then false
    else leb r.job.id s.job.id

unfoldable pub rank_jobs : PriorityWeights → List JobSpec → ℕ → Option (Dict ℕ) → List RankedJob
rank_jobs w jobs current_timestamp fairshare_factors =
    sort ranks_before (map (rank_job w current_timestamp (get_or fairshare_factors [])) jobs)
