-- ===== src/Freetier/Mesh.antt =====
-- adapters/freetier/governor.py, class MultiCspFreeTierGovernor. Dictionaries over providers are keyed
-- by their indices; a method that takes the lock is one step.
use hexaqueue.Prelude.{
  ℕ, ◌+◌, ◌-◌, ◌⊎◌, inl, inr, Bool, true, false, not, ◌&&◌, ◌||◌, Option, none, some, List, [], ◌∷◌,
  ◌++◌, map, ltb, leb, ◌==◌, if◌then◌else◌, get_or,
}
use hexaqueue.Prelude.Lists.{length, sum_by, any, all}
use hexaqueue.Prelude.Dict.{Dict, get, put, del, contains, values}
use hexaqueue.Freetier.{
  CspProvider, provider_index, FreeTierJob, CspFreeTierProfile, LimitExceeded, cpus_of, ram_of,
  FreeTierBurnReport, compute_burn_meter,
}

pub record MultiCspFreeTierGovernor : Type 0 where
  pub profiles : Dict CspFreeTierProfile
  pub allocations : Dict (Dict FreeTierJob)

-- `__init__`; the storage of each provider is zero and no method changes it.
unfoldable pub make_governor : Dict CspFreeTierProfile → MultiCspFreeTierGovernor
make_governor profiles = record { profiles = profiles; allocations = map (λ e. (e.0, [])) profiles }

abbrev pub is_registered : MultiCspFreeTierGovernor → CspProvider → Bool
is_registered g p = contains (provider_index p) g.profiles

abbrev pub same_provider : CspProvider → CspProvider → Bool
same_provider a b = provider_index a == provider_index b

abbrev pub active_jobs : MultiCspFreeTierGovernor → CspProvider → List FreeTierJob
active_jobs g p = values (get_or (get (provider_index p) g.allocations) [])

unfoldable pub priority_order : FreeTierJob → List CspProvider
priority_order job =
    if job.is_arm || ltb 2048 job.ram_mb
    then CspProvider.oci ∷ CspProvider.local ∷ CspProvider.gcp ∷ CspProvider.aws ∷ CspProvider.azure
      ∷ []
    else CspProvider.local ∷ CspProvider.gcp ∷ CspProvider.aws ∷ CspProvider.azure ∷ CspProvider.oci
      ∷ []

-- The loop that appends the registered providers that are not in the order yet.
unfoldable pub append_registered :
    MultiCspFreeTierGovernor → List CspProvider → List CspProvider → List CspProvider
append_registered g [] order = order
append_registered g (p ∷ ps) order =
    append_registered g ps
      (if not (any (same_provider p) order) && is_registered g p then order ++ p ∷ [] else order)

unfoldable pub preferred_first : MultiCspFreeTierGovernor → Option CspProvider → List CspProvider
preferred_first g none = []
preferred_first g (some p) = if is_registered g p then p ∷ [] else []

unfoldable pub determine_provider_order :
    MultiCspFreeTierGovernor → FreeTierJob → Option CspProvider → List CspProvider
unfolding append_registered priority_order preferred_first
determine_provider_order g job preferred =
    append_registered g (priority_order job) (preferred_first g preferred)

pub record MultiCspPlacementCandidate : Type 0 where
  pub available_cpus : ℕ
  pub available_ram_mb : ℕ
  pub is_eligible : Bool
  pub provider : CspProvider

abbrev pub no_candidate : MultiCspPlacementCandidate
no_candidate = record {
  available_cpus = 0;
  available_ram_mb = 0;
  is_eligible = false;
  provider = CspProvider.local;
}

-- The two tests of the loop: the job fits the caps of the provider, and what is left of them. The
-- comparison with what is left is written as a sum, since a difference of natural numbers stops at 0.
unfoldable pub has_room : CspFreeTierProfile → List FreeTierJob → FreeTierJob → Bool
has_room profile jobs job =
    not (ltb profile.max_cpus job.cpus || ltb profile.max_ram_mb job.ram_mb)
    && (leb (cpus_of jobs + job.cpus) profile.max_cpus
        && leb (ram_of jobs + job.ram_mb) profile.max_ram_mb)

unfoldable pub candidate_of :
    CspFreeTierProfile → List FreeTierJob → CspProvider → MultiCspPlacementCandidate
candidate_of profile jobs p = record {
  available_cpus = profile.max_cpus - cpus_of jobs;
  available_ram_mb = profile.max_ram_mb - ram_of jobs;
  is_eligible = true;
  provider = p;
}

-- The loop over the providers.
unfoldable pub first_fit :
    MultiCspFreeTierGovernor → FreeTierJob → List CspProvider → MultiCspPlacementCandidate
unfolding has_room candidate_of
first_fit g job [] = no_candidate
first_fit g job (p ∷ ps) = elim (get (provider_index p) g.profiles) [
  | none ↦ first_fit g job ps
  | some profile ↦
      if has_room profile (active_jobs g p) job
      then candidate_of profile (active_jobs g p) p
      else first_fit g job ps
]

-- `_evaluate_placement_unlocked`
unfoldable pub find_eligible_provider :
    MultiCspFreeTierGovernor → FreeTierJob → Option CspProvider → MultiCspPlacementCandidate
unfolding first_fit determine_provider_order
find_eligible_provider g job preferred =
    if ltb 0 job.gpus
    then no_candidate
    else first_fit g job (determine_provider_order g job preferred)

unfoldable pub check_headroom : MultiCspFreeTierGovernor → FreeTierJob → Bool
unfolding find_eligible_provider
check_headroom g job = (find_eligible_provider g job none).is_eligible

unfoldable pub allocate_job :
    MultiCspFreeTierGovernor
    → FreeTierJob
    → Option CspProvider
    → LimitExceeded ⊎ (CspProvider × MultiCspFreeTierGovernor)
unfolding find_eligible_provider
allocate_job g job preferred =
    let candidate = find_eligible_provider g job preferred in
    let prov = candidate.provider in
    if ltb 0 job.gpus
    then inl LimitExceeded.gpus_requested
    else if not candidate.is_eligible
    then inl LimitExceeded.mesh_exhausted
    else inr (
      prov,
      record g {
        allocations =
            put (provider_index prov)
              (put job.id job (get_or (get (provider_index prov) g.allocations) [])) g.allocations;
      },
    )

-- The loop of `release_job`: the first provider that has the job loses it.
unfoldable pub release_first : ℕ → Dict (Dict FreeTierJob) → Dict (Dict FreeTierJob)
release_first job_id [] = []
release_first job_id ((p, jobs) ∷ rest) =
    if contains job_id jobs
    then (p, del job_id jobs) ∷ rest
    else (p, jobs) ∷ release_first job_id rest

unfoldable pub release_job : MultiCspFreeTierGovernor → ℕ → MultiCspFreeTierGovernor
unfolding release_first
release_job g job_id = record g { allocations = release_first job_id g.allocations }

pub record FederatedBurnReport : Type 0 where
  pub allocated_cpus : ℕ
  pub allocated_ram_mb : ℕ
  pub allocated_storage_mb : ℕ
  pub is_throttled : Bool
  pub provider_burns : Dict FreeTierBurnReport
  pub total_cpus : ℕ
  pub total_ram_mb : ℕ
  pub total_storage_mb : ℕ

-- The loop over the profiles; `_compute_single_burn` computes what compute_burn_meter does.
unfoldable pub provider_burns :
    MultiCspFreeTierGovernor → Dict CspFreeTierProfile → Dict FreeTierBurnReport
unfolding compute_burn_meter
provider_burns g [] = []
provider_burns g ((p, profile) ∷ rest) =
    (p, compute_burn_meter profile (values (get_or (get p g.allocations) [])) 0)
    ∷ provider_burns g rest

unfoldable pub compute_federated_burn_meter : MultiCspFreeTierGovernor → FederatedBurnReport
unfolding provider_burns
compute_federated_burn_meter g =
    let burns = provider_burns g g.profiles in
    record {
      allocated_cpus = sum_by (λ b. b.allocated_cpus) (values burns);
      allocated_ram_mb = sum_by (λ b. b.allocated_ram_mb) (values burns);
      allocated_storage_mb = sum_by (λ b. b.allocated_storage_mb) (values burns);
      is_throttled = if length burns == 0 then false else all (λ b. b.is_throttled) (values burns);
      provider_burns = burns;
      total_cpus = sum_by (λ p. p.max_cpus) (values g.profiles);
      total_ram_mb = sum_by (λ p. p.max_ram_mb) (values g.profiles);
      total_storage_mb = sum_by (λ p. p.max_storage_mb) (values g.profiles);
    }
