-- ===== src/Placement/Node.antt =====
-- node.py, class ComputeNodeProfile: a worker node, its health, its cache and its jobs. Of the
-- capacity the free cores are kept, which placement reads; the clock is an argument.
use hexaqueue.Prelude.{ℕ, Bool, true, false, not, Option, List, [], ◌∷◌, ◌==◌, if◌then◌else◌}
use hexaqueue.Prelude.Lists.{filter, member}

pub data NodeHealthState : Type 0 where
  healthy unhealthy dead drained : NodeHealthState

pub data NodeProvisioningTier : Type 0 where
  static ephemeral : NodeProvisioningTier

abbrev pub same_tier : NodeProvisioningTier → NodeProvisioningTier → Bool
same_tier NodeProvisioningTier.static NodeProvisioningTier.static = true
same_tier NodeProvisioningTier.ephemeral NodeProvisioningTier.ephemeral = true
same_tier _ _ = false

pub record ComputeNodeProfile : Type 0 where
  pub active_job_ids : List ℕ
  pub cached_collateral_hashes : List ℕ
  pub capacity : Option ℕ
  pub health_state : NodeHealthState
  pub last_heartbeat_at : ℕ
  pub node_id : ℕ
  pub registered_at : ℕ
  pub tier : NodeProvisioningTier
  pub updated_at : ℕ

unfoldable pub set_add : ℕ → List ℕ → List ℕ
set_add x xs = if member x xs then xs else x ∷ xs

unfoldable pub set_remove : ℕ → List ℕ → List ℕ
set_remove x xs = filter (λ y. not (y == x)) xs

abbrev pub is_healthy : NodeHealthState → Bool
is_healthy NodeHealthState.healthy = true
is_healthy _ = false

unfoldable pub is_available : ComputeNodeProfile → Bool
is_available n = is_healthy n.health_state

unfoldable pub has_cached_collateral : ComputeNodeProfile → ℕ → Bool
has_cached_collateral n hash = member hash n.cached_collateral_hashes

abbrev pub restored : NodeHealthState → NodeHealthState
restored NodeHealthState.healthy = NodeHealthState.healthy
restored NodeHealthState.unhealthy = NodeHealthState.healthy
restored s = s

unfoldable pub touch_heartbeat : ComputeNodeProfile → ℕ → ComputeNodeProfile
touch_heartbeat n now = record n {
  health_state = restored n.health_state;
  last_heartbeat_at = now;
  updated_at = now;
}

unfoldable pub mark_unhealthy : ComputeNodeProfile → ℕ → ComputeNodeProfile
mark_unhealthy n now = record n { health_state = NodeHealthState.unhealthy; updated_at = now }

unfoldable pub mark_dead : ComputeNodeProfile → ℕ → ComputeNodeProfile
mark_dead n now = record n { health_state = NodeHealthState.dead; updated_at = now }

unfoldable pub mark_drained : ComputeNodeProfile → ℕ → ComputeNodeProfile
mark_drained n now = record n {
  active_job_ids = [];
  health_state = NodeHealthState.drained;
  updated_at = now;
}

unfoldable pub add_cached_hash : ComputeNodeProfile → ℕ → ℕ → ComputeNodeProfile
unfolding set_add
add_cached_hash n hash now = record n {
  cached_collateral_hashes = set_add hash n.cached_collateral_hashes;
  updated_at = now;
}

unfoldable pub assign_job : ComputeNodeProfile → ℕ → ℕ → ComputeNodeProfile
unfolding set_add
assign_job n job_id now = record n {
  active_job_ids = set_add job_id n.active_job_ids;
  updated_at = now;
}

unfoldable pub release_job : ComputeNodeProfile → ℕ → ℕ → ComputeNodeProfile
unfolding set_remove
release_job n job_id now = record n {
  active_job_ids = set_remove job_id n.active_job_ids;
  updated_at = now;
}
