-- ===== src/Freetier.antt =====
-- packages/hexaqueue_core/src/hexaqueue_core/domain/freetier.py and adapters/freetier/governor.py: the
-- caps of free tiers, and the governor that places jobs on several of them. Percentages and texts are
-- left out; of the tags of a job, whether it asks for ARM is kept.
pub mod Mesh
pub mod Room
pub mod Finding
pub mod Caps
pub mod Pooled
pub mod Examples
use hexaqueue.Prelude.{
  ℕ, ◌+◌, Bool, true, false, ◌&&◌, ◌||◌, Option, none, some, List, [], ◌∷◌, ltb, leb, ◌==◌,
  if◌then◌else◌, map,
}
use hexaqueue.Prelude.Lists.{length, sum_by, member}

pub data CspProvider : Type 0 where
  oci gcp aws azure local onprem : CspProvider

abbrev pub provider_index : CspProvider → ℕ
provider_index CspProvider.oci = 0
provider_index CspProvider.gcp = 1
provider_index CspProvider.aws = 2
provider_index CspProvider.azure = 3
provider_index CspProvider.local = 4
provider_index CspProvider.onprem = 5

pub record FreeTierJob : Type 0 where
  pub id : ℕ
  pub cpus : ℕ
  pub ram_mb : ℕ
  pub gpus : ℕ
  pub is_arm : Bool

pub record CspFreeTierProfile : Type 0 where
  pub provider : CspProvider
  pub max_cpus : ℕ
  pub max_ram_mb : ℕ
  pub max_storage_mb : ℕ
  pub allowed_regions : List ℕ

abbrev pub oci_always_free_profile : CspFreeTierProfile
oci_always_free_profile = record {
  provider = CspProvider.oci;
  max_cpus = 4;
  max_ram_mb = 24576;
  max_storage_mb = 204800;
  allowed_regions = [];
}

-- The regions us-central1, us-east1 and us-west1 are 1, 2 and 3.
abbrev pub gcp_always_free_profile : CspFreeTierProfile
gcp_always_free_profile = record {
  provider = CspProvider.gcp;
  max_cpus = 2;
  max_ram_mb = 1024;
  max_storage_mb = 30720;
  allowed_regions = 1 ∷ 2 ∷ 3 ∷ [];
}

abbrev pub aws_free_tier_profile : CspFreeTierProfile
aws_free_tier_profile = record {
  provider = CspProvider.aws;
  max_cpus = 1;
  max_ram_mb = 1024;
  max_storage_mb = 30720;
  allowed_regions = [];
}

abbrev pub azure_free_tier_profile : CspFreeTierProfile
azure_free_tier_profile = record aws_free_tier_profile { provider = CspProvider.azure }

abbrev pub local_free_tier_profile : CspFreeTierProfile
local_free_tier_profile = record {
  provider = CspProvider.local;
  max_cpus = 2;
  max_ram_mb = 2048;
  max_storage_mb = 5120;
  allowed_regions = [];
}

unfoldable pub get_free_tier_profile : CspProvider → CspFreeTierProfile
get_free_tier_profile CspProvider.oci = oci_always_free_profile
get_free_tier_profile CspProvider.gcp = gcp_always_free_profile
get_free_tier_profile CspProvider.aws = aws_free_tier_profile
get_free_tier_profile CspProvider.azure = azure_free_tier_profile
get_free_tier_profile _ = local_free_tier_profile

-- FreeTierLimitExceededError, by the cap that is exceeded.
pub data LimitExceeded : Type 0 where
  gpus_requested cpus_exceeded ram_exceeded region_refused mesh_exhausted : LimitExceeded

unfoldable pub validate_job_resource_request :
    CspFreeTierProfile → FreeTierJob → Option LimitExceeded
validate_job_resource_request profile job =
    if ltb 0 job.gpus
    then some LimitExceeded.gpus_requested
    else if ltb profile.max_cpus job.cpus
    then some LimitExceeded.cpus_exceeded
    else if ltb profile.max_ram_mb job.ram_mb
    then some LimitExceeded.ram_exceeded
    else none

unfoldable pub validate_region_placement : CspFreeTierProfile → Option ℕ → Option LimitExceeded
validate_region_placement profile none = none
validate_region_placement profile (some region) =
    if length profile.allowed_regions == 0
    then none
    else if member region profile.allowed_regions
    then none
    else some LimitExceeded.region_refused

abbrev pub cpus_of : List FreeTierJob → ℕ
cpus_of = sum_by (λ j. j.cpus)

abbrev pub ram_of : List FreeTierJob → ℕ
ram_of = sum_by (λ j. j.ram_mb)

unfoldable pub check_cluster_headroom : CspFreeTierProfile → List FreeTierJob → FreeTierJob → Bool
check_cluster_headroom profile active_jobs candidate =
    leb (cpus_of active_jobs + candidate.cpus) profile.max_cpus
    && leb (ram_of active_jobs + candidate.ram_mb) profile.max_ram_mb

pub record FreeTierBurnReport : Type 0 where
  pub provider : CspProvider
  pub active_jobs_count : ℕ
  pub allocated_cpus : ℕ
  pub allocated_ram_mb : ℕ
  pub allocated_storage_mb : ℕ
  pub cpu_ceiling : ℕ
  pub ram_ceiling_mb : ℕ
  pub storage_ceiling_mb : ℕ
  pub is_throttled : Bool

unfoldable pub compute_burn_meter : CspFreeTierProfile → List FreeTierJob → ℕ → FreeTierBurnReport
compute_burn_meter profile active_jobs allocated_storage_mb = record {
  provider = profile.provider;
  active_jobs_count = length active_jobs;
  allocated_cpus = cpus_of active_jobs;
  allocated_ram_mb = ram_of active_jobs;
  allocated_storage_mb = allocated_storage_mb;
  cpu_ceiling = profile.max_cpus;
  ram_ceiling_mb = profile.max_ram_mb;
  storage_ceiling_mb = profile.max_storage_mb;
  is_throttled =
      leb profile.max_cpus (cpus_of active_jobs)
      || (leb profile.max_ram_mb (ram_of active_jobs)
          || leb profile.max_storage_mb allocated_storage_mb);
}
