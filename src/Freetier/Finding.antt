-- ===== src/Freetier/Finding.antt =====
-- adapters/freetier/governor.py, find_eligible_provider: which providers are tried, and what is found.
use hexaqueue.Prelude.{
  ℕ, ◌≡◌, ◌⊎◌, refl, subst, Bool-cases, ==_iff, inl, inr, Bool, true, false, ◌||◌, Option, none,
  some, List, ltb, ◌==◌, on_test, ltb→lt, arith,
}
use hexaqueue.Prelude.Dict.{contains}
use hexaqueue.Freetier.{
  CspProvider, provider_index, FreeTierJob, CspFreeTierProfile, check_cluster_headroom,
  validate_job_resource_request,
}
use hexaqueue.Freetier.Mesh.{
  MultiCspFreeTierGovernor, MultiCspPlacementCandidate, no_candidate, find_eligible_provider,
  determine_provider_order, preferred_first, priority_order, first_fit, has_room,
}
use hexaqueue.Freetier.Room.{
  HasRoomAt, IsFirstFit, first_fit-IsFirstFit, is_listed, append_registered-listed,
  priority_order-listed,
}

-- The five clouds of the order, and the preferred one.
abbrev pub is_tried : Option CspProvider → ℕ → Bool
is_tried none k = ltb k 5
is_tried (some p) k = (k == provider_index p) || ltb k 5

-- The provider that is found has room for the job. If none is found, the job asks for GPUs or no
-- provider that is tried has room.
abbrev pub FindsRoom :
    MultiCspFreeTierGovernor
    → FreeTierJob
    → Option CspProvider
    → MultiCspPlacementCandidate
    → Type 0
FindsRoom g job preferred c =
    ((c.is_eligible ≡ true) × (job.gpus ≡ 0) × HasRoomAt g job (provider_index c.provider))
    ⊎ ((c.is_eligible ≡ false)
        × (job.gpus ≡ 0 → (k : ℕ) → is_tried preferred k ≡ true → ¬ HasRoomAt g job k))

small_listed :
    (g : MultiCspFreeTierGovernor) (job : FreeTierJob) (preferred : Option CspProvider) (k : ℕ)
    → ltb k 5 ≡ true
    → is_listed k (preferred_first g preferred) || is_listed k (priority_order job) ≡ true
small_listed g job preferred k small =
    ground (arith, priority_order-listed job k (ltb→lt k 5 small))

tried_listed :
    (g : MultiCspFreeTierGovernor) (job : FreeTierJob) (preferred : Option CspProvider) (k : ℕ)
    → contains k g.profiles ≡ true
    → is_tried preferred k ≡ true
    → is_listed k (preferred_first g preferred) || is_listed k (priority_order job) ≡ true
unfolding preferred_first
tried_listed g job none k r t = small_listed g job none k t
tried_listed g job (some p) k r t = elim (Bool-cases (k == provider_index p)) [
  | inl same ↦
      let registered =
        subst (λ i. contains i g.profiles ≡ true) ((==_iff k (provider_index p)).0 same) r in
      rw (registered, same) refl
  | inr different ↦ small_listed g job (some p) k (subst (λ b. (b || ltb k 5) ≡ true) different t)
]

determine_provider_order-listed :
    (g : MultiCspFreeTierGovernor) (job : FreeTierJob) (preferred : Option CspProvider) (k : ℕ)
    → contains k g.profiles ≡ true
    → is_tried preferred k ≡ true
    → is_listed k (determine_provider_order g job preferred) ≡ true
unfolding determine_provider_order preferred_first
determine_provider_order-listed g job preferred k r t =
    append_registered-listed g k (priority_order job) (preferred_first g preferred) r
      (tried_listed g job preferred k r t)

found_in_order :
    (g : MultiCspFreeTierGovernor) (job : FreeTierJob) (preferred : Option CspProvider)
    (c : MultiCspPlacementCandidate)
    → job.gpus ≡ 0
    → IsFirstFit g job (determine_provider_order g job preferred) c
    → FindsRoom g job preferred c
found_in_order g job preferred c z (inl (e, room)) = inl (e, z, room)
found_in_order g job preferred c z (inr (e, none_fits)) = inr (
  e,
  λ z' k t room.
      none_fits k (determine_provider_order-listed g job preferred k (rw room.1 refl) t) room,
)

-- Each search gives a registered provider whose caps leave room for the job beside the jobs it holds,
-- for a job that asks for no GPU; or it gives none, and then the job asks for a GPU, or neither the
-- preferred provider nor any of oci, gcp, aws, azure and local is registered and has room.
pub find_eligible_provider-FindsRoom :
    (g : MultiCspFreeTierGovernor) (job : FreeTierJob) (preferred : Option CspProvider)
    → FindsRoom g job preferred (find_eligible_provider g job preferred)
unfolding find_eligible_provider
find_eligible_provider-FindsRoom g job preferred =
    on_test (FindsRoom g job preferred) (ltb 0 job.gpus) no_candidate
      (first_fit g job (determine_provider_order g job preferred))
      (λ h. inr (refl, λ z. ground arith))
      (λ h.
        found_in_order g job preferred (first_fit g job (determine_provider_order g job preferred))
          (ground arith) (first_fit-IsFirstFit g job (determine_provider_order g job preferred)))

-- Where a job asks for no GPU, the room that the governor looks for on a provider is what the check of
-- that provider alone accepts; and where there is room, the check of the job alone accepts it too.
pub has_room-eq-headroom :
    (profile : CspFreeTierProfile) (jobs : List FreeTierJob) (job : FreeTierJob)
    → job.gpus ≡ 0
    → (has_room profile jobs job ≡ check_cluster_headroom profile jobs job)
      × (has_room profile jobs job ≡ true → validate_job_resource_request profile job ≡ none)
unfolding has_room check_cluster_headroom validate_job_resource_request
has_room-eq-headroom profile jobs job z = (ground arith, λ h. ground arith)
