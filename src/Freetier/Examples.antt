-- ===== src/Freetier/Examples.antt =====
-- A mesh of local machines and of OCI, on which the theorems about the free-tier governor are applied,
-- and tests of what the governor does with a job that is allocated twice.
use hexaqueue.Prelude.{ℕ, ◌≡◌, refl, inr, true, false, none, some, List, [], ◌∷◌}
use hexaqueue.Prelude.Dict.{Dict, get}
use hexaqueue.Prelude.Lists.{All}
use hexaqueue.Freetier.{
  CspProvider, FreeTierJob, CspFreeTierProfile, local_free_tier_profile, oci_always_free_profile,
  check_cluster_headroom, validate_job_resource_request,
}
use hexaqueue.Freetier.Mesh.{
  MultiCspFreeTierGovernor, make_governor, allocate_job, release_job, find_eligible_provider,
  check_headroom, has_room, compute_federated_burn_meter,
}
use hexaqueue.Freetier.Caps.{Call, run, IsWithinCaps, run-IsWithinCaps, jobs_at}
use hexaqueue.Freetier.Finding.{FindsRoom, find_eligible_provider-FindsRoom, has_room-eq-headroom}
use hexaqueue.Freetier.Pooled.{
  release_job-allocate_job, IsWithinPool, compute_federated_burn_meter-IsWithinPool,
}

abbrev small_mesh : Dict CspFreeTierProfile
small_mesh = (4, local_free_tier_profile) ∷ (0, oci_always_free_profile) ∷ []

abbrev two_cpus : ℕ → FreeTierJob
two_cpus id = record { id = id; cpus = 2; ram_mb = 512; gpus = 0; is_arm = false }

abbrev morning : List Call
morning =
    Call.allocating (two_cpus 1) none
    ∷ Call.allocating (two_cpus 2) none
    ∷ Call.releasing 1
    ∷ Call.allocating (two_cpus 3) (some CspProvider.oci)
    ∷ Call.allocating (two_cpus 4) (some CspProvider.oci)
    ∷ []

-- The fourth job goes to the local machines, since OCI is full.
after_morning :
    (run (make_governor small_mesh) morning).allocations
    ≡ (4, (4, two_cpus 4) ∷ []) ∷ (0, (2, two_cpus 2) ∷ (3, two_cpus 3) ∷ []) ∷ []
unfolding run make_governor allocate_job release_job
after_morning = refl

run-IsWithinCaps_example : IsWithinCaps (run (make_governor small_mesh) morning)
run-IsWithinCaps_example = run-IsWithinCaps small_mesh morning

find_eligible_provider-FindsRoom_example :
    FindsRoom
      (run (make_governor small_mesh) morning)
      (two_cpus 5)
      none
      (find_eligible_provider (run (make_governor small_mesh) morning) (two_cpus 5) none)
find_eligible_provider-FindsRoom_example =
    find_eligible_provider-FindsRoom (run (make_governor small_mesh) morning) (two_cpus 5) none

abbrev with_first : MultiCspFreeTierGovernor
with_first = record {
  profiles = small_mesh;
  allocations = (4, (1, two_cpus 1) ∷ []) ∷ (0, []) ∷ [];
}

first_allocated :
    allocate_job (make_governor small_mesh) (two_cpus 1) none ≡ inr (CspProvider.local, with_first)
unfolding allocate_job make_governor
first_allocated = refl

unplaced : All (λ e. get 1 e.1 ≡ none) (make_governor small_mesh).allocations
unfolding make_governor
unplaced = (refl, (refl, tt))

release_job-allocate_job_example :
    jobs_at 4 (release_job with_first 1).allocations
    ≡ jobs_at 4 (make_governor small_mesh).allocations
release_job-allocate_job_example =
    release_job-allocate_job (make_governor small_mesh) (two_cpus 1) none CspProvider.local
      with_first 4 unplaced first_allocated

compute_federated_burn_meter-IsWithinPool_example :
    IsWithinPool (compute_federated_burn_meter (run (make_governor small_mesh) morning))
compute_federated_burn_meter-IsWithinPool_example =
    compute_federated_burn_meter-IsWithinPool small_mesh morning (refl, (refl, tt))

-- A job that is allocated on two providers stays on the second when it is released.
allocated_twice :
    (run (make_governor small_mesh) (
      Call.allocating (two_cpus 1) (some CspProvider.local)
      ∷ Call.allocating (two_cpus 1) (some CspProvider.oci)
      ∷ Call.releasing 1
      ∷ [])).allocations
    ≡ (4, []) ∷ (0, (1, two_cpus 1) ∷ []) ∷ []
unfolding run make_governor allocate_job release_job
allocated_twice = refl

-- A mesh of machines on the premises alone has headroom only for a job that prefers them.
abbrev on_premises : Dict CspFreeTierProfile
on_premises = (5, record local_free_tier_profile { provider = CspProvider.onprem }) ∷ []

onprem_unseen : check_headroom (make_governor on_premises) (two_cpus 1) ≡ false
unfolding check_headroom make_governor
onprem_unseen = refl

onprem_preferred :
    (find_eligible_provider
      (make_governor on_premises)
      (two_cpus 1)
      (some CspProvider.onprem)).is_eligible
    ≡ true
unfolding find_eligible_provider make_governor
onprem_preferred = refl

has_room-eq-headroom_example :
    (has_room oci_always_free_profile (two_cpus 2 ∷ []) (two_cpus 3)
      ≡ check_cluster_headroom oci_always_free_profile (two_cpus 2 ∷ []) (two_cpus 3))
    × (has_room oci_always_free_profile (two_cpus 2 ∷ []) (two_cpus 3) ≡ true
        → validate_job_resource_request oci_always_free_profile (two_cpus 3) ≡ none)
has_room-eq-headroom_example =
    has_room-eq-headroom oci_always_free_profile (two_cpus 2 ∷ []) (two_cpus 3) refl
