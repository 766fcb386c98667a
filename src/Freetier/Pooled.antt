-- ===== src/Freetier/Pooled.antt =====
-- adapters/freetier/governor.py: a job that is allocated and released, and the federated burn meter.
use hexaqueue.Prelude.{
  ℕ, ◌≤◌, ◌≡◌, ◌⊎◌, inl, inr, Option, none, some, List, [], ◌∷◌, ◌==◌, refl, sym, ap, subst, ◌∙◌,
  Bool-cases, arith,
}
use hexaqueue.Prelude.Dict.{Dict, get, put, values, Unique, get-put_self, del-put_new}
use hexaqueue.Prelude.Lists.{sum_by, All}
use hexaqueue.Freetier.{
  CspProvider, provider_index, FreeTierJob, CspFreeTierProfile, LimitExceeded, cpus_of, ram_of,
  compute_burn_meter,
}
use hexaqueue.Freetier.Mesh.{
  MultiCspFreeTierGovernor, make_governor, allocate_job, release_first, release_job, provider_burns,
  compute_federated_burn_meter, FederatedBurnReport,
}
use hexaqueue.Freetier.Caps.{
  jobs_at, kept, step, IsAllocated, allocate_job-IsAllocated, Call, run, run-IsWithinCaps,
}

fresh_at :
    (job_id k : ℕ) (allocations : Dict (Dict FreeTierJob))
    → All (λ e. get job_id e.1 ≡ none) allocations
    → get job_id (jobs_at k allocations) ≡ none
fresh_at job_id k [] fresh = refl
fresh_at job_id k ((p, jobs) ∷ rest) fresh = ground (arith, fresh.0, fresh_at job_id k rest fresh.1)

jobs_at-release_put :
    (job : FreeTierJob) (i k : ℕ) (jobs : Dict FreeTierJob) (allocations : Dict (Dict FreeTierJob))
    → All (λ e. get job.id e.1 ≡ none) allocations
    → get job.id jobs ≡ none
    → jobs ≡ jobs_at i allocations
    → jobs_at k (release_first job.id (put i (put job.id job jobs) allocations))
      ≡ jobs_at k allocations
unfolding release_first
jobs_at-release_put job i k jobs [] all fresh same =
    ground (arith, get-put_self job.id job jobs, del-put_new job.id job jobs fresh)
jobs_at-release_put job i k jobs ((p, held) ∷ rest) all fresh same = elim (Bool-cases (i == p)) [
  | inl e ↦
      ground (arith, same, all.0, get-put_self job.id job jobs, del-put_new job.id job jobs fresh)
  | inr e ↦ ground (arith, all.0, jobs_at-release_put job i k jobs rest all.1 fresh)
]

released :
    (g : MultiCspFreeTierGovernor) (job : FreeTierJob) (p : CspProvider)
    (g' : MultiCspFreeTierGovernor) (k : ℕ)
    → All (λ e. get job.id e.1 ≡ none) g.allocations
    → IsAllocated g job (inr (p, g'))
    → jobs_at k (release_job g' job.id).allocations ≡ jobs_at k g.allocations
unfolding release_job
released g job p g' k fresh (room, e) =
    subst (λ x. jobs_at k (release_job x job.id).allocations ≡ jobs_at k g.allocations) (sym e)
      (jobs_at-release_put job (provider_index p) k (jobs_at (provider_index p) g.allocations)
        g.allocations fresh (fresh_at job.id (provider_index p) g.allocations fresh) refl)

-- When a job that no provider holds is allocated and released again, every provider holds the jobs it
-- held before.
pub release_job-allocate_job :
    (g : MultiCspFreeTierGovernor) (job : FreeTierJob) (preferred : Option CspProvider)
    (p : CspProvider) (g' : MultiCspFreeTierGovernor) (k : ℕ)
    → All (λ e. get job.id e.1 ≡ none) g.allocations
    → allocate_job g job preferred ≡ inr (p, g')
    → jobs_at k (release_job g' job.id).allocations ≡ jobs_at k g.allocations
release_job-allocate_job g job preferred p g' k fresh e =
    released g job p g' k fresh
      (subst (IsAllocated g job) e (allocate_job-IsAllocated g job preferred))

get-tail :
    {V : Type 0} (k p : ℕ) (v w : V) (rest : Dict V)
    → Unique ((p, v) ∷ rest)
    → get k rest ≡ some w
    → get k ((p, v) ∷ rest) ≡ some w
get-tail k p v w rest u e = ground (arith, u.0)

-- The caps of the profiles themselves, which have one entry for each provider.
sums_within :
    (g : MultiCspFreeTierGovernor) (profiles : Dict CspFreeTierProfile)
    → Unique profiles
    → ((k : ℕ) (profile : CspFreeTierProfile)
        → get k profiles ≡ some profile
        → (cpus_of (values (jobs_at k g.allocations)) ≤ profile.max_cpus)
          × (ram_of (values (jobs_at k g.allocations)) ≤ profile.max_ram_mb))
    → (sum_by (λ b. b.allocated_cpus) (values (provider_burns g profiles))
        ≤ sum_by (λ p. p.max_cpus) (values profiles))
      × (sum_by (λ b. b.allocated_ram_mb) (values (provider_burns g profiles))
          ≤ sum_by (λ p. p.max_ram_mb) (values profiles))
unfolding provider_burns compute_burn_meter
sums_within g [] u w = (omega arith, omega arith)
sums_within g ((p, profile) ∷ rest) u w =
    let here = w p profile (ground arith) in
    let there = sums_within g rest u.1 (λ k q e. w k q (get-tail k p profile q rest u e)) in
    (omega (arith, here.0, there.0), omega (arith, here.1, there.1))

-- The caps are the same after any call.
kept-profiles :
    (g : MultiCspFreeTierGovernor) (job : FreeTierJob)
    (answer : LimitExceeded ⊎ (CspProvider × MultiCspFreeTierGovernor))
    → IsAllocated g job answer
    → (kept g answer).profiles ≡ g.profiles
kept-profiles g job (inl e) a = refl
kept-profiles g job (inr (p, g')) (room, e) = ap (λ x. x.profiles) e

run-profiles :
    (g : MultiCspFreeTierGovernor) (calls : List Call) → (run g calls).profiles ≡ g.profiles
unfolding run step release_job
run-profiles g [] = refl
run-profiles g (Call.releasing job_id ∷ calls) = run-profiles (release_job g job_id) calls
run-profiles g (Call.allocating job preferred ∷ calls) =
    run-profiles (step g (Call.allocating job preferred)) calls
    ∙ kept-profiles g job (allocate_job g job preferred) (allocate_job-IsAllocated g job preferred)

-- What the report of all providers adds up is within what it pools.
abbrev pub IsWithinPool : FederatedBurnReport → Type 0
IsWithinPool r = (r.allocated_cpus ≤ r.total_cpus) × (r.allocated_ram_mb ≤ r.total_ram_mb)

-- After any sequence of allocations and releases, granted or refused, from a governor that holds
-- nothing and has one profile for each provider, the CPUs and the memory that the federated report
-- adds up over the providers are at most the sums of the caps of all the profiles.
pub compute_federated_burn_meter-IsWithinPool :
    (profiles : Dict CspFreeTierProfile) (calls : List Call)
    → Unique profiles
    → IsWithinPool (compute_federated_burn_meter (run (make_governor profiles) calls))
unfolding compute_federated_burn_meter make_governor
compute_federated_burn_meter-IsWithinPool profiles calls u =
    let g = run (make_governor profiles) calls in
    sums_within g g.profiles (subst Unique (sym (run-profiles (make_governor profiles) calls)) u)
      (run-IsWithinCaps profiles calls)
