-- ===== src/Autoscaler.antt =====
-- packages/hexaqueue_server/src/hexaqueue_server/domain/autoscaler.py and the records of
-- packages/hexaqueue_core/src/hexaqueue_core/domain/pool.py that it reads and writes, without the
-- fields that only describe a pool, the reasons, which are texts for operators, and the result of a
-- resizing, which is not read. Credits are in millionths, as in the ledger.
pub mod Scaling
pub mod Reconciling
pub mod Examples
use hexaqueue.Prelude.{
  ℕ, ◌+◌, Bool, true, false, not, ◌&&◌, Option, none, some, List, ltb, leb, ◌==◌, if◌then◌else◌,
  min, max,
}
use hexaqueue.Prelude.Dict.{Dict, get, put}
use hexaqueue.Budget.Reservation.{available_balance}
use hexaqueue.Budget.Ledger.{Ledger, get_account}

pub record InstancePoolState : Type 0 where
  pub current_nodes : ℕ
  pub desired_nodes : ℕ
  pub idle_drain_seconds : ℕ
  pub max_nodes : ℕ
  pub min_nodes : ℕ
  pub pool_id : ℕ
  pub ready_nodes : ℕ
  pub spot_nodes : ℕ

-- `validate_bounds`: false is a ValueError; the number 0 stands for a blank identifier.
unfoldable pub bounds_valid : InstancePoolState → Bool
bounds_valid p = not (p.pool_id == 0) && leb p.min_nodes p.max_nodes

pub record PoolScaleRequest : Type 0 where
  pub pool_id : ℕ
  pub target_nodes : ℕ

pub data ScalingAction : Type 0 where
  scale_up scale_down noop throttled_budget : ScalingAction

pub record AutoscalerDecision : Type 0 where
  pub action : ScalingAction
  pub current_nodes : ℕ
  pub pending_jobs : ℕ
  pub pool_id : ℕ
  pub target_nodes : ℕ

-- A driven port over a cloud in the state `S`; calls that raise are not modelled.
pub record InstancePoolGovernorPort (S : Type 0) : Type 0 where
  pub get_pool_state : S → ℕ → InstancePoolState
  pub scale_pool : S → PoolScaleRequest → S

pub record BudgetAwareInstancePoolAutoscaler (S : Type 0) : Type 0 where
  pub governors : Dict (InstancePoolGovernorPort S)
  pub budget_port : Option Ledger
  pub min_budget_reserve : ℕ

unfoldable pub register_governor :
    {S : Type 0}
    → BudgetAwareInstancePoolAutoscaler S
    → ℕ
    → InstancePoolGovernorPort S
    → BudgetAwareInstancePoolAutoscaler S
register_governor a pool_id governor = record a { governors = put pool_id governor a.governors }

abbrev pub decide : InstancePoolState → ScalingAction → ℕ → ℕ → AutoscalerDecision
decide pool action target pending = record {
  action = action;
  current_nodes = pool.current_nodes;
  pending_jobs = pending;
  pool_id = pool.pool_id;
  target_nodes = target;
}

-- `available_budget is not None and available_budget < self._min_budget_reserve`
abbrev pub is_throttled : ℕ → Option ℕ → Bool
is_throttled reserve none = false
is_throttled reserve (some available) = ltb available reserve

unfoldable pub evaluate_scaling : ℕ → InstancePoolState → ℕ → ℕ → Option ℕ → AutoscalerDecision
evaluate_scaling min_budget_reserve pool pending_jobs running_jobs available_budget =
    if ltb 0 pending_jobs
    then if leb pool.max_nodes pool.current_nodes
      then decide pool noop pool.current_nodes pending_jobs
      else if is_throttled min_budget_reserve available_budget
      then decide pool throttled_budget pool.current_nodes pending_jobs
      else decide pool scale_up
          (min pool.max_nodes (max pool.min_nodes (pool.current_nodes + pending_jobs))) pending_jobs
    else if (running_jobs == 0) && ltb pool.min_nodes pool.current_nodes
    then decide pool scale_down pool.min_nodes 0
    else decide pool noop pool.current_nodes 0

-- `(await self._budget_port.get_account(tenant_id)).available_balance`, where both are given.
unfoldable pub budget_of : Option Ledger → Option ℕ → Option ℕ
unfolding available_balance get_account
budget_of (some ledger) (some tenant) = some (available_balance (get_account ledger tenant))
budget_of _ _ = none

abbrev pub rescales : ScalingAction → Bool
rescales scale_up = true
rescales scale_down = true
rescales _ = false

-- The call behind the look-up of the governor.
unfoldable pub reconcile_with :
    {S : Type 0}
    → InstancePoolGovernorPort S
    → ℕ
    → S
    → ℕ
    → ℕ
    → ℕ
    → Option ℕ
    → AutoscalerDecision × S
unfolding evaluate_scaling
reconcile_with governor reserve cloud pool_id pending_jobs running_jobs available_budget =
    let decision =
      evaluate_scaling reserve (governor.get_pool_state cloud pool_id) pending_jobs running_jobs
        available_budget in
    (
      decision,
      if rescales decision.action
          then governor.scale_pool cloud
              (record { pool_id = pool_id; target_nodes = decision.target_nodes })
          else cloud,
    )

-- `none` is the HexaqueueError on a pool without a governor.
unfoldable pub reconcile_pool :
    {S : Type 0}
    → BudgetAwareInstancePoolAutoscaler S
    → S
    → ℕ
    → ℕ
    → ℕ
    → Option ℕ
    → Option (AutoscalerDecision × S)
unfolding reconcile_with budget_of
reconcile_pool a cloud pool_id pending_jobs running_jobs tenant_id =
    elim (get pool_id a.governors) [
      | none ↦ none
      | some governor ↦ some (
          reconcile_with governor a.min_budget_reserve cloud pool_id pending_jobs running_jobs
            (budget_of a.budget_port tenant_id))
    ]
