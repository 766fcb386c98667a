-- ===== src/Placement/Examples.antt =====
-- Three nodes on which the theorems about placement are applied.
use hexaqueue.Prelude.{ℕ, ◌≡◌, refl, true, none, some, List, [], ◌∷◌}
use hexaqueue.Prelude.Int.{pos}
use hexaqueue.Job.{JobSpec}
use hexaqueue.Placement.Node.{NodeHealthState, NodeProvisioningTier, ComputeNodeProfile}
use hexaqueue.Placement.{required_hashes, evaluate_placement, best_of, is_eligible, closer}
use hexaqueue.Placement.Placed.{IsPlaced, evaluate_placement-IsPlaced}

abbrev node_of : ℕ → NodeProvisioningTier → NodeHealthState → List ℕ → ComputeNodeProfile
node_of id tier health cached = record {
  active_job_ids = 21 ∷ [];
  cached_collateral_hashes = cached;
  capacity = some 4;
  health_state = health;
  last_heartbeat_at = 0;
  node_id = id;
  registered_at = 0;
  tier = tier;
  updated_at = 0;
}

-- A dead node, two static nodes, the second with one warm hit, and an ephemeral one with two.
abbrev some_nodes : List ComputeNodeProfile
some_nodes =
    node_of 1 NodeProvisioningTier.static NodeHealthState.dead (31 ∷ 32 ∷ [])
    ∷ node_of 2 NodeProvisioningTier.static NodeHealthState.healthy []
    ∷ node_of 3 NodeProvisioningTier.static NodeHealthState.healthy (31 ∷ [])
    ∷ node_of 4 NodeProvisioningTier.ephemeral NodeHealthState.healthy (31 ∷ 32 ∷ [])
    ∷ []

abbrev cached_job : JobSpec
cached_job = record {
  id = 5;
  user = 7;
  cpus = 2;
  collateral_ids = 31 ∷ 32 ∷ [];
  priority = pos 0;
  checkpointable = true;
  priority_bonus = pos 0;
  created_at = 0;
}

warm_static_node : (evaluate_placement 5 cached_job some_nodes none 0).selected_node_id ≡ some 3
unfolding evaluate_placement best_of required_hashes is_eligible closer
warm_static_node = refl

evaluate_placement-IsPlaced_example :
    IsPlaced 5 cached_job some_nodes
      (required_hashes cached_job none)
      0
      (evaluate_placement 5 cached_job some_nodes none 0)
evaluate_placement-IsPlaced_example = evaluate_placement-IsPlaced 5 cached_job some_nodes none 0

abbrev busy_node : ComputeNodeProfile
busy_node = node_of 2 NodeProvisioningTier.static NodeHealthState.healthy []
