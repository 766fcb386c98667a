-- ===== src/Scheduling/Preemption.antt =====
-- scheduling.py, classes PreemptionPolicy and ControlledPreemptionEngine.
use mathlib.Core.List.{head?}
use hexaqueue.Prelude.{
  ℕ, ◌-◌, Bool, true, false, not, ◌&&◌, Option, none, some, List, [], ◌∷◌, leb, ltb, ◌==◌,
  if◌then◌else◌, get_or,
}
use hexaqueue.Prelude.Lists.{filter}
use hexaqueue.Prelude.Dict.{Dict, get}
use hexaqueue.Prelude.Sort.{sort}
use hexaqueue.Prelude.Int.{ltb_ℤ}
use hexaqueue.Job.{JobSpec}
use hexaqueue.Scheduling.Priority.{RankedJob}

pub record PreemptionPolicy : Type 0 where
  pub grace_period_seconds : ℕ
  pub preemption_bonus : ℕ
  pub starvation_deficit_threshold : ℕ

-- The two tests of the loop of `find_starved_job`.
unfoldable pub is_starved : PreemptionPolicy → ℕ → RankedJob → Bool
is_starved policy current_timestamp ranked =
    let wait_time = current_timestamp - ranked.job.created_at in
    let is_expired = leb policy.grace_period_seconds wait_time in
    let has_entitlement = leb policy.starvation_deficit_threshold ranked.fairshare_factor in
    is_expired && has_entitlement

unfoldable pub find_starved_job : PreemptionPolicy → List RankedJob → ℕ → Option RankedJob
unfolding is_starved
find_starved_job policy [] now = none
find_starved_job policy (ranked ∷ rest) now =
    if is_starved policy now ranked then some ranked else find_starved_job policy rest now

abbrev pub checkpoint_score : JobSpec → ℕ
checkpoint_score job = if job.checkpointable then 0 else 1

-- `max(0.0, now - starts.get(job.id, now))`
abbrev pub elapsed : ℕ → Dict ℕ → JobSpec → ℕ
elapsed now starts job = now - get_or (get job.id starts) now

-- The order of the keys `(checkpoint_score, elapsed, priority)`.
unfoldable pub cheaper : ℕ → Dict ℕ → JobSpec → JobSpec → Bool
cheaper now starts a b =
    if ltb (checkpoint_score a) (checkpoint_score b)
    then true
    else if ltb (checkpoint_score b) (checkpoint_score a)
    then false
    else if ltb (elapsed now starts a) (elapsed now starts b)
    then true
    else if ltb (elapsed now starts b) (elapsed now starts a)
    then false
    else not (ltb_ℤ b.priority a.priority)

unfoldable pub select_preemption_candidate : List JobSpec → ℕ → ℕ → Option (Dict ℕ) → Option JobSpec
select_preemption_candidate running_jobs starved_user now start_times =
    let eligible = filter (λ j. not (j.user == starved_user)) running_jobs in
    let starts = get_or start_times [] in head? (sort (cheaper now starts) eligible)
