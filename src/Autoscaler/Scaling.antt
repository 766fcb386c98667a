-- ===== src/Autoscaler/Scaling.antt =====
-- autoscaler.py, evaluate_scaling: the bounds of a decision and what each action requires.
use hexaqueue.Prelude.{ℕ, ◌≤◌, ◌<◌, ◌≡◌, ◌⊎◌, true, false, Option, arith}
use hexaqueue.Autoscaler.{
  InstancePoolState, scale_up, scale_down, noop, throttled_budget, AutoscalerDecision,
  evaluate_scaling, is_throttled,
}

-- What a decision on a pool can be: it grows, shrinks, is throttled or stays.
abbrev pub IsSound : ℕ → InstancePoolState → ℕ → ℕ → Option ℕ → AutoscalerDecision → Type 0
IsSound reserve p pending running budget d =
    ((d.action ≡ scale_up)
      × (0 < pending)
      × (is_throttled reserve budget ≡ false)
      × (p.current_nodes < d.target_nodes)
      × (d.target_nodes ≤ p.max_nodes)
      × (p.min_nodes ≤ d.target_nodes))
    ⊎ (((d.action ≡ scale_down)
          × (pending ≡ 0)
          × (running ≡ 0)
          × (d.target_nodes ≡ p.min_nodes)
          × (d.target_nodes < p.current_nodes))
        ⊎ (((d.action ≡ throttled_budget)
              × (0 < pending)
              × (is_throttled reserve budget ≡ true)
              × (d.target_nodes ≡ p.current_nodes))
            ⊎ ((d.action ≡ noop) × (d.target_nodes ≡ p.current_nodes))))

-- For a pool whose floor is within its ceiling, a decision grows it within both bounds, where jobs
-- wait and the budget is not below the reserve; or shrinks it to the floor, where no job waits or
-- runs; or keeps its size, and it names the budget only where jobs wait and the budget is short.
pub evaluate_scaling-IsSound :
    (reserve : ℕ) (p : InstancePoolState) (pending running : ℕ) (budget : Option ℕ)
    → p.min_nodes ≤ p.max_nodes
    → IsSound reserve p pending running budget (evaluate_scaling reserve p pending running budget)
unfolding evaluate_scaling
evaluate_scaling-IsSound reserve p pending running budget h = ground arith
