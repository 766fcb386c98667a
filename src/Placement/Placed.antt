-- ===== src/Placement/Placed.antt =====
-- placement.py, evaluate_placement: where a job is placed, in terms of nodes and numbers.
use hexaqueue.Prelude.{
  ℕ, ◌+◌, ◌≤◌, ◌<◌, ◌≡◌, ◌⊎◌, ◌↔◌, refl, inl, inr, true, false, Option, none, some, List, [], ◌∷◌,
  arith, if◌then◌else◌, Option-cases,
}
use hexaqueue.Prelude.Lists.{All, All-map, length, member}
use hexaqueue.Prelude.Dict.{Dict}
use hexaqueue.Prelude.Members.{In}
use hexaqueue.Job.{JobSpec, slots}
use hexaqueue.Placement.Node.{
  NodeHealthState, NodeProvisioningTier, ComputeNodeProfile, is_available,
}
use hexaqueue.Placement.{
  PlacementDecision, is_eligible, is_candidate, required_hashes, closer, best_of,
  evaluate_placement, hits,
}
use hexaqueue.Placement.Choosing.{best_of-none, best_of-IsLeast, none_eligible}

-- How many of the required files a node has in its cache.
abbrev pub warm_files : List ℕ → ComputeNodeProfile → ℕ
warm_files [] n = 0
warm_files (h ∷ hashes) n =
    (if member h n.cached_collateral_hashes then 1 else 0) + warm_files hashes n

-- Enough cores, where the capacity of the node is known.
abbrev pub HasCores : JobSpec → Option ℕ → Type 0
HasCores job none = Unit
HasCores job (some cpus) = slots job ≤ cpus

abbrev pub CanRun : JobSpec → ComputeNodeProfile → Type 0
CanRun job n = (n.health_state ≡ NodeHealthState.healthy) × HasCores job n.capacity

-- The first node has more required files; or as many, and fewer jobs; or as many of both, and no greater
-- identifier.
abbrev pub IsPreferred : List ℕ → ComputeNodeProfile → ComputeNodeProfile → Type 0
IsPreferred required a b =
    (warm_files required b < warm_files required a)
    ⊎ ((warm_files required a ≡ warm_files required b)
        × ((length a.active_job_ids < length b.active_job_ids)
            ⊎ ((length a.active_job_ids ≡ length b.active_job_ids) × (a.node_id ≤ b.node_id))))

abbrev pub CanRunIn : JobSpec → NodeProvisioningTier → ComputeNodeProfile → Type 0
CanRunIn job tier n = CanRun job n × (n.tier ≡ tier)

-- A node of the tier that can run the job, and is preferred to each other one that can.
abbrev pub IsBest :
    JobSpec → List ℕ → NodeProvisioningTier → List ComputeNodeProfile → ComputeNodeProfile → Type 0
IsBest job required tier nodes n =
    In n nodes
    × CanRunIn job tier n
    × All (λ m. (¬ CanRunIn job tier m) ⊎ IsPreferred required n m) nodes

hits-eq-warm_files :
    (required : List ℕ) (n : ComputeNodeProfile) → hits required n ≡ warm_files required n
hits-eq-warm_files [] n = refl
hits-eq-warm_files (h ∷ hashes) n = ground (arith, hits-eq-warm_files hashes n)

is_eligible_iff :
    (job : JobSpec) (n : ComputeNodeProfile) → (is_eligible job n ≡ true) ↔ CanRun job n
unfolding is_eligible is_available
is_eligible_iff job n = ground arith

is_candidate_iff :
    (job : JobSpec) (tier : NodeProvisioningTier) (n : ComputeNodeProfile)
    → (is_candidate job tier n ≡ true) ↔ CanRunIn job tier n
is_candidate_iff job tier n = ground (arith, is_eligible_iff job n)

closer→IsPreferred :
    (required : List ℕ) (a b : ComputeNodeProfile)
    → closer required a b ≡ true
    → IsPreferred required a b
unfolding closer
closer→IsPreferred required a b h =
    ground (arith, hits-eq-warm_files required a, hits-eq-warm_files required b)

best_of-IsBest :
    (job : JobSpec) (required : List ℕ) (tier : NodeProvisioningTier)
    (nodes : List ComputeNodeProfile) (n : ComputeNodeProfile)
    → best_of job required tier nodes ≡ some n
    → IsBest job required tier nodes n
best_of-IsBest job required tier nodes n e =
    let (found, fits, least) = best_of-IsLeast job required tier nodes n e in
    (
      found,
      (is_candidate_iff job tier n).0 fits,
      All-map (λ m. (is_candidate job tier m ≡ false) ⊎ (closer required n m ≡ true))
          (λ m. (¬ CanRunIn job tier m) ⊎ IsPreferred required n m) (λ m h. weighed m h) nodes
          least,
    )
  where
    weighed :
        (m : ComputeNodeProfile)
        → (is_candidate job tier m ≡ false) ⊎ (closer required n m ≡ true)
        → (¬ CanRunIn job tier m) ⊎ IsPreferred required n m
    weighed m (inl out) = inl (λ can. cc (out, (is_candidate_iff job tier m).1 can))
    weighed m (inr closer_m) = inr (closer→IsPreferred required n m closer_m)

-- The decision names the node, its tier, and how many of the required files it has.
abbrev pub Selects : List ℕ → NodeProvisioningTier → ComputeNodeProfile → PlacementDecision → Type 0
Selects required tier n d =
    (d.selected_node_id ≡ some n.node_id)
    × (d.tier ≡ some tier)
    × (d.warm_hits ≡ warm_files required n)
    × (d.total_required ≡ length required)
    × (d.should_burst_ephemeral ≡ false)

abbrev pub NoneIn : JobSpec → NodeProvisioningTier → List ComputeNodeProfile → Type 0
NoneIn job tier = All (λ m. ¬ CanRunIn job tier m)

-- No node is named, and more are asked for exactly when the backlog is not empty and reaches the
-- threshold.
abbrev pub SelectsNone : ℕ → ℕ → PlacementDecision → Type 0
SelectsNone threshold backlog d =
    (d.selected_node_id ≡ none)
    × (d.tier ≡ none)
    × ((d.should_burst_ephemeral ≡ true) ↔ ((1 ≤ backlog) × (threshold ≤ backlog)))

abbrev pub IsPlaced :
    ℕ → JobSpec → List ComputeNodeProfile → List ℕ → ℕ → PlacementDecision → Type 0
IsPlaced threshold job nodes required backlog d =
    ((n : ComputeNodeProfile) × Selects required NodeProvisioningTier.static n d
      × IsBest job required NodeProvisioningTier.static nodes n)
    ⊎ (((n : ComputeNodeProfile) × Selects required NodeProvisioningTier.ephemeral n d
          × NoneIn job NodeProvisioningTier.static nodes
          × IsBest job required NodeProvisioningTier.ephemeral nodes n)
        ⊎ (SelectsNone threshold backlog d × All (λ m. ¬ CanRun job m) nodes))

none_in :
    (job : JobSpec) (tier : NodeProvisioningTier) (nodes : List ComputeNodeProfile)
    → All (λ m. is_candidate job tier m ≡ false) nodes
    → NoneIn job tier nodes
none_in job tier nodes =
    All-map (λ m. is_candidate job tier m ≡ false) (λ m. ¬ CanRunIn job tier m)
      (λ m out can. cc (out, (is_candidate_iff job tier m).1 can)) nodes

-- A job goes to a healthy static node with enough cores that has the most of the files required; among
-- those with as many, the fewest jobs, and then the smallest identifier; where no static node can
-- run it, to the ephemeral node that is best in the same way; and to none only where no node can run
-- it, when more nodes are asked for exactly if the backlog is not empty and reaches the threshold.
pub evaluate_placement-IsPlaced :
    (threshold : ℕ) (job : JobSpec) (nodes : List ComputeNodeProfile) (hash_map : Option (Dict ℕ))
    (backlog : ℕ)
    → IsPlaced threshold job nodes
        (required_hashes job hash_map)
        backlog
        (evaluate_placement threshold job nodes hash_map backlog)
unfolding evaluate_placement
evaluate_placement-IsPlaced threshold job nodes hash_map backlog =
    let required = required_hashes job hash_map in
    elim (Option-cases (best_of job required NodeProvisioningTier.static nodes)) [
      | inr (n, e) ↦ inl (
        n,
        rw (e, evaluate_placement) (refl, refl, hits-eq-warm_files required n, refl, refl),
        best_of-IsBest job required NodeProvisioningTier.static nodes n e,
      )
      | inl e ↦
          let no_static = best_of-none job required NodeProvisioningTier.static nodes e in
          elim (Option-cases (best_of job required NodeProvisioningTier.ephemeral nodes)) [
            | inr (n, f) ↦ inr (
                inl (
                  n,
                  rw (e, f, evaluate_placement)
                      (refl, refl, hits-eq-warm_files required n, refl, refl),
                  none_in job NodeProvisioningTier.static nodes no_static,
                  best_of-IsBest job required NodeProvisioningTier.ephemeral nodes n f,
                ))
            | inl f ↦ inr (
                inr (
                  rw (e, f, evaluate_placement) (refl, refl, ground arith),
                  All-map (λ m. is_eligible job m ≡ false) (λ m. ¬ CanRun job m)
                      (λ m out can. cc (out, (is_eligible_iff job m).1 can)) nodes
                      (none_eligible job nodes no_static
                        (best_of-none job required NodeProvisioningTier.ephemeral nodes f)),
                ))
          ]
    ]
