-- ===== src/Freetier/Room.antt =====
-- What the loop of adapters/freetier/governor.py over the providers finds.
use hexaqueue.Prelude.{
  ℕ, ◌+◌, ◌≤◌, ◌<◌, ◌≡◌, ◌↔◌, ◌⊎◌, refl, subst, inl, inr, Bool, true, false, not, ◌&&◌, ◌||◌,
  on_lookup, on_test, ==_iff, none, some, List, [], ◌∷◌, ◌++◌, ltb, ◌==◌, if◌then◌else◌, get_or,
  Bool-cases, arith,
}
use hexaqueue.Prelude.Dict.{get, contains, values}
use hexaqueue.Prelude.Lists.{any}
use hexaqueue.Freetier.{
  CspProvider, provider_index, FreeTierJob, CspFreeTierProfile, cpus_of, ram_of,
}
use hexaqueue.Freetier.Mesh.{
  MultiCspFreeTierGovernor, active_jobs, is_registered, same_provider, has_room, candidate_of,
  first_fit, MultiCspPlacementCandidate, append_registered, priority_order,
}

-- The job fits beside the jobs of the provider.
abbrev pub Fits : CspFreeTierProfile → List FreeTierJob → FreeTierJob → Type 0
Fits profile jobs job =
    (cpus_of jobs + job.cpus ≤ profile.max_cpus) × (ram_of jobs + job.ram_mb ≤ profile.max_ram_mb)

pub has_room_iff :
    (profile : CspFreeTierProfile) (jobs : List FreeTierJob) (job : FreeTierJob)
    → (has_room profile jobs job ≡ true) ↔ Fits profile jobs job
unfolding has_room
has_room_iff profile jobs job = ground arith

-- The provider of index k is registered, and the job fits there.
abbrev pub HasRoomAt : MultiCspFreeTierGovernor → FreeTierJob → ℕ → Type 0
HasRoomAt g job k =
    (profile : CspFreeTierProfile) × (get k g.profiles ≡ some profile)
    × Fits profile (values (get_or (get k g.allocations) [])) job

abbrev pub is_listed : ℕ → List CspProvider → Bool
is_listed k = any (λ q. k == provider_index q)

-- The first of the providers with room is found, and none only if none of them has room.
abbrev pub IsFirstFit :
    MultiCspFreeTierGovernor → FreeTierJob → List CspProvider → MultiCspPlacementCandidate → Type 0
IsFirstFit g job ps c =
    ((c.is_eligible ≡ true) × HasRoomAt g job (provider_index c.provider))
    ⊎ ((c.is_eligible ≡ false) × ((k : ℕ) → is_listed k ps ≡ true → ¬ HasRoomAt g job k))

skip_full :
    (g : MultiCspFreeTierGovernor) (job : FreeTierJob) (p : CspProvider) (ps : List CspProvider)
    (c : MultiCspPlacementCandidate)
    → ¬ HasRoomAt g job (provider_index p)
    → IsFirstFit g job ps c
    → IsFirstFit g job (p ∷ ps) c
skip_full g job p ps c full (inl found) = inl found
skip_full g job p ps c full (inr (e, none_fits)) = inr (
  e,
  λ k m room. elim (Bool-cases (k == provider_index p)) [
    | inl same ↦ full (subst (HasRoomAt g job) ((==_iff k (provider_index p)).0 same) room)
    | inr other ↦ none_fits k (subst (λ b. b || is_listed k ps ≡ true) other m) room
  ],
)

not_registered :
    (g : MultiCspFreeTierGovernor) (job : FreeTierJob) (k : ℕ)
    → get k g.profiles ≡ none
    → ¬ HasRoomAt g job k
not_registered g job k e (profile, found, fits) = ground arith

no_room :
    (g : MultiCspFreeTierGovernor) (job : FreeTierJob) (k : ℕ) (profile : CspFreeTierProfile)
    → get k g.profiles ≡ some profile
    → has_room profile (values (get_or (get k g.allocations) [])) job ≡ false
    → ¬ HasRoomAt g job k
no_room g job k profile e h (other, found, fits) =
    ground (arith, (has_room_iff profile (values (get_or (get k g.allocations) [])) job).1)

pub first_fit-IsFirstFit :
    (g : MultiCspFreeTierGovernor) (job : FreeTierJob) (ps : List CspProvider)
    → IsFirstFit g job ps (first_fit g job ps)
unfolding first_fit candidate_of
first_fit-IsFirstFit g job [] = inr (refl, λ k e. ground arith)
first_fit-IsFirstFit g job (p ∷ ps) =
    on_lookup (IsFirstFit g job (p ∷ ps)) (get (provider_index p) g.profiles) (first_fit g job ps)
      (λ profile.
        if has_room profile (active_jobs g p) job
        then candidate_of profile (active_jobs g p) p
        else first_fit g job ps)
      (λ e.
        skip_full g job p ps (first_fit g job ps) (not_registered g job (provider_index p) e)
          (first_fit-IsFirstFit g job ps))
      (λ profile e.
        on_test (IsFirstFit g job (p ∷ ps)) (has_room profile (active_jobs g p) job)
          (candidate_of profile (active_jobs g p) p) (first_fit g job ps)
          (λ h. inl (refl, (profile, e, (has_room_iff profile (active_jobs g p) job).0 h)))
          (λ h.
            skip_full g job p ps (first_fit g job ps) (no_room g job (provider_index p) profile e h)
              (first_fit-IsFirstFit g job ps)))

is_listed-append :
    (k : ℕ) (p : CspProvider) (order : List CspProvider)
    → is_listed k (order ++ p ∷ []) ≡ (is_listed k order || (k == provider_index p))
is_listed-append k p [] = ground arith
is_listed-append k p (q ∷ order) = ground (arith, is_listed-append k p order)

is_listed-same :
    (k : ℕ) (p : CspProvider) (order : List CspProvider)
    → k ≡ provider_index p
    → any (same_provider p) order ≡ is_listed k order
is_listed-same k p [] e = refl
is_listed-same k p (q ∷ order) e = rw (e, is_listed-same k p order e) refl

stays_listed :
    (g : MultiCspFreeTierGovernor) (k : ℕ) (p : CspProvider) (ps order : List CspProvider)
    → contains k g.profiles ≡ true
    → is_listed k order || is_listed k (p ∷ ps) ≡ true
    → is_listed k (
          if not (any (same_provider p) order) && is_registered g p then order ++ p ∷ [] else order)
        || is_listed k ps
      ≡ true
stays_listed g k p ps order r m =
    on_test (λ o. (is_listed k o || is_listed k ps) ≡ true)
      (not (any (same_provider p) order) && is_registered g p) (order ++ p ∷ []) order
      (λ h. ground (arith, is_listed-append k p order))
      (λ h. elim (Bool-cases (k == provider_index p)) [
        | inl same ↦
            let e = (==_iff k (provider_index p)).0 same in
            ground
              (arith, is_listed-same k p order e, subst (λ i. contains i g.profiles ≡ true) e r)
        | inr other ↦ ground arith
      ])

-- A registered provider is in the order when it was there or comes among the next ones.
pub append_registered-listed :
    (g : MultiCspFreeTierGovernor) (k : ℕ) (ps order : List CspProvider)
    → contains k g.profiles ≡ true
    → is_listed k order || is_listed k ps ≡ true
    → is_listed k (append_registered g ps order) ≡ true
unfolding append_registered
append_registered-listed g k [] order r m = ground arith
append_registered-listed g k (p ∷ ps) order r m =
    append_registered-listed g k ps
      (if not (any (same_provider p) order) && is_registered g p then order ++ p ∷ [] else order) r
      (stays_listed g k p ps order r m)

-- Every cloud that the order by size or by architecture names; onprem is none of them.
pub priority_order-listed :
    (job : FreeTierJob) (k : ℕ) → k < 5 → is_listed k (priority_order job) ≡ true
unfolding priority_order
priority_order-listed job k small =
    on_test (λ o. is_listed k o ≡ true) (job.is_arm || ltb 2048 job.ram_mb)
      (CspProvider.oci ∷ CspProvider.local ∷ CspProvider.gcp ∷ CspProvider.aws ∷ CspProvider.azure
        ∷ [])
      (CspProvider.local ∷ CspProvider.gcp ∷ CspProvider.aws ∷ CspProvider.azure ∷ CspProvider.oci
        ∷ [])
      (λ h. ground arith) (λ h. ground arith)
