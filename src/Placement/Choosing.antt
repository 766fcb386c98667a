-- ===== src/Placement/Choosing.antt =====
-- placement.py, evaluate_placement: the candidates of a tier and the choice among them.
use mathlib.Core.List.{head?}
use hexaqueue.Prelude.{
  ℕ, ◌≡◌, inl, inr, true, false, ◌&&◌, none, some, List, [], ◌∷◌, arith, Bool-cases,
}
use hexaqueue.Prelude.Lists.{filter, All}
use hexaqueue.Prelude.Choice.{IsLeast, head-IsLeast}
use hexaqueue.Prelude.Sort.{sort, insert}
use hexaqueue.Job.{JobSpec}
use hexaqueue.Placement.Node.{NodeProvisioningTier, ComputeNodeProfile, same_tier}
use hexaqueue.Placement.{is_eligible, is_candidate, closer, best_of}

closer_refl : (required : List ℕ) (a : ComputeNodeProfile) → closer required a a ≡ true
unfolding closer
closer_refl required a = ground arith

closer_total :
    (required : List ℕ) (a b : ComputeNodeProfile)
    → closer required a b ≡ false
    → closer required b a ≡ true
unfolding closer
closer_total required a b h = ground arith

closer_trans :
    (required : List ℕ) (a b c : ComputeNodeProfile)
    → closer required a b ≡ true
    → closer required b c ≡ true
    → closer required a c ≡ true
unfolding closer
closer_trans required a b c h k = ground arith

insert-ne-nil :
    (required : List ℕ) (x : ComputeNodeProfile) (xs : List ComputeNodeProfile)
    → head? (insert (closer required) x xs) ≡ none
    → ⊥
insert-ne-nil required x [] h = cc
insert-ne-nil required x (y ∷ ys) h = ground arith

-- No candidate is found only where there is none.
pub best_of-none :
    (job : JobSpec) (required : List ℕ) (tier : NodeProvisioningTier)
    (nodes : List ComputeNodeProfile)
    → best_of job required tier nodes ≡ none
    → All (λ n. is_candidate job tier n ≡ false) nodes
unfolding best_of
best_of-none job required tier [] h = tt
best_of-none job required tier (n ∷ nodes) h = elim (Bool-cases (is_candidate job tier n)) [
  | inl e ↦ absurd (
      insert-ne-nil required n (sort (closer required) (filter (is_candidate job tier) nodes))
        (rw e at h))
  | inr e ↦ (e, best_of-none job required tier nodes (rw e at h))
]

no_tier_eligible :
    (job : JobSpec) (n : ComputeNodeProfile)
    → is_candidate job NodeProvisioningTier.static n ≡ false
    → is_candidate job NodeProvisioningTier.ephemeral n ≡ false
    → is_eligible job n ≡ false
no_tier_eligible job n h k = elim (Bool-cases (is_eligible job n)) [
  | inl e ↦ absurd (one_tier n.tier (rw e at h) (rw e at k))
  | inr e ↦ e
]
  where
    one_tier :
        (t : NodeProvisioningTier)
        → (true && same_tier t NodeProvisioningTier.static) ≡ false
        → (true && same_tier t NodeProvisioningTier.ephemeral) ≡ false
        → ⊥
    one_tier NodeProvisioningTier.static a b = cc
    one_tier NodeProvisioningTier.ephemeral a b = cc

pub none_eligible :
    (job : JobSpec) (nodes : List ComputeNodeProfile)
    → All (λ n. is_candidate job NodeProvisioningTier.static n ≡ false) nodes
    → All (λ n. is_candidate job NodeProvisioningTier.ephemeral n ≡ false) nodes
    → All (λ n. is_eligible job n ≡ false) nodes
none_eligible job [] h k = tt
none_eligible job (n ∷ nodes) h k =
    (no_tier_eligible job n h.0 k.0, none_eligible job nodes h.1 k.1)

pub best_of-IsLeast :
    (job : JobSpec) (required : List ℕ) (tier : NodeProvisioningTier)
    (nodes : List ComputeNodeProfile) (n : ComputeNodeProfile)
    → best_of job required tier nodes ≡ some n
    → IsLeast (closer required) (is_candidate job tier) n nodes
unfolding best_of
best_of-IsLeast job required tier nodes n e =
    head-IsLeast (closer required) (closer_refl required) (closer_total required)
      (closer_trans required) (is_candidate job tier) n nodes e
