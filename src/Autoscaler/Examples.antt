-- ===== src/Autoscaler/Examples.antt =====
-- A pool of one to five nodes, on which the theorems about scaling are applied.
use hexaqueue.Prelude.{get_or, ℕ, ◌<◌, ◌≡◌, refl, none, some, [], ◌∷◌, arith}
use hexaqueue.Prelude.Dict.{Dict, get, put}
use hexaqueue.Budget.Reservation.{available_balance}
use hexaqueue.Budget.Ledger.{Ledger, empty_ledger, get_account}
use hexaqueue.Autoscaler.{
  InstancePoolState, AutoscalerDecision, decide, scale_up, scale_down, noop,
  InstancePoolGovernorPort, BudgetAwareInstancePoolAutoscaler, evaluate_scaling, reconcile_pool,
  reconcile_with,
}
use hexaqueue.Autoscaler.Scaling.{IsSound, evaluate_scaling-IsSound}
use hexaqueue.Autoscaler.Reconciling.{poor_tenant_waits, idle_pool_rests}

abbrev pool_of : ℕ → ℕ → InstancePoolState
pool_of nodes id = record {
  current_nodes = nodes;
  desired_nodes = nodes;
  idle_drain_seconds = 300;
  max_nodes = 5;
  min_nodes = 1;
  pool_id = id;
  ready_nodes = nodes;
  spot_nodes = 0;
}

-- As the governors of the server do without a client: the pools are kept in a dictionary, and a pool
-- is resized in its current, desired and ready nodes.
abbrev resized : ℕ → InstancePoolState → InstancePoolState
resized target p = record p { current_nodes = target; desired_nodes = target; ready_nodes = target }

abbrev local_governor : InstancePoolGovernorPort (Dict InstancePoolState)
local_governor = record {
  get_pool_state = λ pools id. get_or (get id pools) (pool_of 0 id);
  scale_pool = λ pools request.
      put request.pool_id
        (resized request.target_nodes
          (get_or (get request.pool_id pools) (pool_of 0 request.pool_id)))
        pools;
}

abbrev pools_of : ℕ → Dict InstancePoolState
pools_of nodes = (4, pool_of nodes 4) ∷ []

-- Tenant 7 has ten credits, and the reserve is twenty.
abbrev small_ledger : Ledger
small_ledger = empty_ledger ((7, 10) ∷ [])

abbrev one_pool : BudgetAwareInstancePoolAutoscaler (Dict InstancePoolState)
one_pool = record {
  governors = (4, local_governor) ∷ [];
  budget_port = some small_ledger;
  min_budget_reserve = 20;
}

-- Three nodes and four jobs would make seven, which the ceiling cuts.
grown_pool : evaluate_scaling 20 (pool_of 3 4) 4 0 none ≡ decide (pool_of 3 4) scale_up 5 4
unfolding evaluate_scaling
grown_pool = refl

evaluate_scaling-IsSound_example :
    IsSound 20 (pool_of 3 4) 4 0 (some 30) (evaluate_scaling 20 (pool_of 3 4) 4 0 (some 30))
evaluate_scaling-IsSound_example =
    evaluate_scaling-IsSound 20 (pool_of 3 4) 4 0 (some 30) (omega arith)

poor_tenant : available_balance (get_account small_ledger 7) < 20
unfolding available_balance get_account
poor_tenant = omega arith

poor_tenant_waits_example :
    (d : AutoscalerDecision) × (reconcile_pool one_pool (pools_of 3) 4 2 0 (some 7)
      ≡ some (d, pools_of 3))
    × (d.target_nodes ≡ 3)
poor_tenant_waits_example =
    poor_tenant_waits one_pool local_governor (pools_of 3) 4 small_ledger 2 0 7 refl refl
      poor_tenant (omega arith)

abbrev shrunk_pool : AutoscalerDecision
shrunk_pool = decide (pool_of 3 4) scale_down 1 0

idle_run : reconcile_pool one_pool (pools_of 3) 4 0 0 none ≡ some (shrunk_pool, pools_of 1)
unfolding reconcile_pool reconcile_with evaluate_scaling
idle_run = refl

idle_pool_rests_example :
    (d' : AutoscalerDecision) × (reconcile_pool one_pool (pools_of 1) 4 0 0 none
      ≡ some (d', pools_of 1))
    × (d'.action ≡ noop)
idle_pool_rests_example =
    idle_pool_rests one_pool local_governor (pools_of 3) 4 shrunk_pool (pools_of 1) none refl
      (λ target. (refl, refl)) idle_run
