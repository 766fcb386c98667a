-- ===== src/Autoscaler/Reconciling.antt =====
-- autoscaler.py, reconcile_pool, with the ledger and a governor.
use hexaqueue.Prelude.{
  ℕ, ◌≤◌, ◌<◌, ◌≡◌, inl, inr, Option, some, arith, ltb, subst, sym, Bool-cases, ap, ◌∙◌,
}
use mathlib.Core.Option.{some_inj}
use hexaqueue.Prelude.Dict.{get}
use hexaqueue.Budget.Reservation.{available_balance}
use hexaqueue.Budget.Ledger.{Ledger, get_account}
use hexaqueue.Autoscaler.{
  noop, AutoscalerDecision, InstancePoolGovernorPort, BudgetAwareInstancePoolAutoscaler,
  evaluate_scaling, reconcile_with, reconcile_pool, budget_of,
}

-- The governor brings the pool to the size that it is asked for and leaves its floor alone.
abbrev pub Resizes : {S : Type 0} → InstancePoolGovernorPort S → S → ℕ → ℕ → Type 0
Resizes governor cloud pool_id target =
    let after =
      governor.get_pool_state
        (governor.scale_pool cloud (record { pool_id = pool_id; target_nodes = target })) pool_id in
    (after.current_nodes ≡ target)
    × (after.min_nodes ≡ (governor.get_pool_state cloud pool_id).min_nodes)

-- What an idle reconciliation leaves is at its floor or below.
idle_at_floor :
    {S : Type 0} (governor : InstancePoolGovernorPort S) (reserve : ℕ) (cloud : S) (pool_id : ℕ)
    (budget : Option ℕ)
    → ((target : ℕ) → Resizes governor cloud pool_id target)
    → let cloud' = (reconcile_with governor reserve cloud pool_id 0 0 budget).1 in
      (governor.get_pool_state cloud' pool_id).current_nodes
      ≤ (governor.get_pool_state cloud' pool_id).min_nodes
unfolding reconcile_with evaluate_scaling
idle_at_floor governor reserve cloud pool_id budget obeys =
    let p = governor.get_pool_state cloud pool_id in
    elim (Bool-cases (ltb p.min_nodes p.current_nodes)) [
      | inl over ↦ let (size, floor) = obeys p.min_nodes in rw over (omega (arith, size, floor))
      | inr under ↦ rw under (ground (arith, under))
    ]

-- A decision on an idle pool at its floor leaves the cloud alone.
idle_stays :
    {S : Type 0} (governor : InstancePoolGovernorPort S) (reserve : ℕ) (cloud : S) (pool_id : ℕ)
    (budget : Option ℕ)
    → (governor.get_pool_state cloud pool_id).current_nodes
      ≤ (governor.get_pool_state cloud pool_id).min_nodes
    → ((reconcile_with governor reserve cloud pool_id 0 0 budget).1 ≡ cloud)
      × ((reconcile_with governor reserve cloud pool_id 0 0 budget).0.action ≡ noop)
unfolding reconcile_with evaluate_scaling
idle_stays governor reserve cloud pool_id budget low = ground arith

module _ {S : Type 0} (a : BudgetAwareInstancePoolAutoscaler S)
    (governor : InstancePoolGovernorPort S) (cloud : S) (pool_id : ℕ) where
  -- Where a pool has a governor and the budget port is a ledger, the pool is not enlarged for a
  -- tenant whose available balance is below the reserve: if jobs wait, however many, the cloud stays
  -- as it was.
  pub poor_tenant_waits :
      (ledger : Ledger) (pending running tenant : ℕ)
      → get pool_id a.governors ≡ some governor
      → a.budget_port ≡ some ledger
      → available_balance (get_account ledger tenant) < a.min_budget_reserve
      → 0 < pending
      → (d : AutoscalerDecision) × (reconcile_pool a cloud pool_id pending running (some tenant)
          ≡ some (d, cloud))
        × (d.target_nodes ≡ (governor.get_pool_state cloud pool_id).current_nodes)
  unfolding reconcile_pool reconcile_with evaluate_scaling budget_of
  poor_tenant_waits ledger pending running tenant e b poor waits = (
    evaluate_scaling a.min_budget_reserve (governor.get_pool_state cloud pool_id) pending running
        (some (available_balance (get_account ledger tenant))),
    ground arith,
    ground arith,
  )

  -- Where the governor of a pool brings it to exactly the size that it is asked for and leaves its
  -- floor alone, whatever else of the pool it changes, an idle pool is at rest after one reconciliation: a second one decides to do
  -- nothing.
  pub idle_pool_rests :
      (d : AutoscalerDecision) (cloud' : S) (tenant : Option ℕ)
      → get pool_id a.governors ≡ some governor
      → ((target : ℕ) → Resizes governor cloud pool_id target)
      → reconcile_pool a cloud pool_id 0 0 tenant ≡ some (d, cloud')
      → (d' : AutoscalerDecision) × (reconcile_pool a cloud' pool_id 0 0 tenant ≡ some (d', cloud'))
        × (d'.action ≡ noop)
  unfolding reconcile_pool
  idle_pool_rests d cloud' tenant e obeys first = (
    (reconcile_with governor a.min_budget_reserve cloud' pool_id 0 0 budget).0,
    found cloud'
        ∙ ap
            (λ c.
              some ((reconcile_with governor a.min_budget_reserve cloud' pool_id 0 0 budget).0, c))
            stays.0,
    stays.1,
  )
    where
      budget : Option ℕ
      budget = budget_of a.budget_port tenant

      found :
          (c : S)
          → reconcile_pool a c pool_id 0 0 tenant
            ≡ some (reconcile_with governor a.min_budget_reserve c pool_id 0 0 budget)
      found c = rw (e, reconcile_pool)

      same : (reconcile_with governor a.min_budget_reserve cloud pool_id 0 0 budget).1 ≡ cloud'
      same = ap (λ r. r.1) (some_inj.0 (sym (found cloud) ∙ first))

      low :
          (governor.get_pool_state cloud' pool_id).current_nodes
          ≤ (governor.get_pool_state cloud' pool_id).min_nodes
      low =
          subst
            (λ c.
              (governor.get_pool_state c pool_id).current_nodes
              ≤ (governor.get_pool_state c pool_id).min_nodes)
            same (idle_at_floor governor a.min_budget_reserve cloud pool_id budget obeys)

      stays :
          ((reconcile_with governor a.min_budget_reserve cloud' pool_id 0 0 budget).1 ≡ cloud')
          × ((reconcile_with governor a.min_budget_reserve cloud' pool_id 0 0 budget).0.action
              ≡ noop)
      stays = idle_stays governor a.min_budget_reserve cloud' pool_id budget low
