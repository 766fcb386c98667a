-- ===== src/Placement.antt =====
-- packages/hexaqueue_server/src/hexaqueue_server/domain/placement.py, class WarmCachePlacementEngine,
-- with the worker nodes of packages/hexaqueue_core/src/hexaqueue_core/domain/node.py. A set is a list
-- in which no entry occurs twice; a ratio is in millionths; the reason, a text, is left out.
pub mod Node
pub mod Choosing
pub mod Placed
pub mod Jobs
pub mod Examples
use mathlib.Core.List.{head?}
use hexaqueue.Prelude.{
  ℕ, ◌*◌, ◌/◌, Bool, true, false, not, ◌&&◌, Option, none, some, List, [], ◌∷◌, map, ltb, leb, ◌==◌,
  if◌then◌else◌, max, get_or,
}
use hexaqueue.Prelude.Lists.{length, filter, member}
use hexaqueue.Prelude.Dict.{Dict, get}
use hexaqueue.Prelude.Sort.{sort}
use hexaqueue.Job.{JobSpec, slots}
use hexaqueue.Scheduling.Priority.{unit}
use hexaqueue.Placement.Node.{
  NodeProvisioningTier, same_tier, ComputeNodeProfile, is_available, set_add,
}

pub record PlacementDecision : Type 0 where
  pub hit_ratio : ℕ
  pub selected_node_id : Option ℕ
  pub should_burst_ephemeral : Bool
  pub tier : Option NodeProvisioningTier
  pub total_required : ℕ
  pub warm_hits : ℕ

-- The tests of the loop over the nodes.
unfoldable pub is_eligible : JobSpec → ComputeNodeProfile → Bool
unfolding is_available
is_eligible job node =
    is_available node
    && (elim node.capacity [ none ↦ true | some available_cpus ↦ leb (slots job) available_cpus ])

unfoldable pub set_of : List ℕ → List ℕ
unfolding set_add
set_of [] = []
set_of (x ∷ xs) = set_add x (set_of xs)

unfoldable pub required_hashes : JobSpec → Option (Dict ℕ) → List ℕ
unfolding set_of
required_hashes job hash_map =
    set_of (map (λ cid. get_or (get cid (get_or hash_map [])) cid) job.collateral_ids)

-- `len(required_hashes & node.cached_collateral_hashes)`
abbrev pub hits : List ℕ → ComputeNodeProfile → ℕ
hits required node = length (filter (λ h. member h node.cached_collateral_hashes) required)

abbrev pub load : ComputeNodeProfile → ℕ
load node = length node.active_job_ids

-- The order of `_node_affinity_key`.
unfoldable pub closer : List ℕ → ComputeNodeProfile → ComputeNodeProfile → Bool
closer required a b =
    if ltb (hits required b) (hits required a)
    then true
    else if ltb (hits required a) (hits required b)
    then false
    else if ltb (load a) (load b)
    then true
    else if ltb (load b) (load a)
    then false
    else leb a.node_id b.node_id

abbrev pub is_candidate : JobSpec → NodeProvisioningTier → ComputeNodeProfile → Bool
is_candidate job tier node = is_eligible job node && same_tier node.tier tier

-- The first of the sorted candidates of a tier.
unfoldable pub best_of :
    JobSpec → List ℕ → NodeProvisioningTier → List ComputeNodeProfile → Option ComputeNodeProfile
best_of job required tier nodes =
    head? (sort (closer required) (filter (is_candidate job tier) nodes))

abbrev pub select_node : List ℕ → NodeProvisioningTier → ComputeNodeProfile → PlacementDecision
select_node required tier node = record {
  hit_ratio = if ltb 0 (length required) then hits required node * unit / length required else unit;
  selected_node_id = some node.node_id;
  should_burst_ephemeral = false;
  tier = some tier;
  total_required = length required;
  warm_hits = hits required node;
}

abbrev pub no_node : List ℕ → Bool → PlacementDecision
no_node required burst = record {
  hit_ratio = 0;
  selected_node_id = none;
  should_burst_ephemeral = burst;
  tier = none;
  total_required = length required;
  warm_hits = 0;
}

unfoldable pub evaluate_placement :
    ℕ → JobSpec → List ComputeNodeProfile → Option (Dict ℕ) → ℕ → PlacementDecision
unfolding best_of required_hashes
evaluate_placement burst_backlog_threshold job nodes collateral_hash_map backlog_size =
    let required = required_hashes job collateral_hash_map in
    elim (best_of job required NodeProvisioningTier.static nodes) [
      | some best_static ↦ select_node required NodeProvisioningTier.static best_static
      | none ↦ elim (best_of job required NodeProvisioningTier.ephemeral nodes) [
        | some best_ephemeral ↦ select_node required NodeProvisioningTier.ephemeral best_ephemeral
        | none ↦ no_node required (leb (max 1 burst_backlog_threshold) backlog_size)
      ]
    ]
