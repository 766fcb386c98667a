-- ===== src/Fairshare/Examples.antt =====
-- A tree of a department, a team and a user, on which the theorems about fair shares are applied, and a
-- tree in which a node is its own ancestor, so that recording usage never ends.
use hexaqueue.Prelude.{ℕ, zero, suc, ◌+◌, max, subst, ◌≡◌, refl, inr, none, some, [], ◌∷◌}
use hexaqueue.Prelude.Dict.{Dict, get}
use hexaqueue.Fairshare.{
  FairShareNode, FairShareTree, root_node, make_tree, add_node, record_usage, climb, unfinished,
}
use hexaqueue.Fairshare.Rooted.{IsRooted, KeepsRooted, make_tree-IsRooted, add_node-KeepsRooted}
use hexaqueue.Fairshare.Recording.{Records, record_usage-Records}

abbrev child_of : ℕ → ℕ → FairShareNode
child_of parent id = record {
  id = id;
  parent_id = some parent;
  shares = 1;
  historical_usage = 0;
  last_decay_timestamp = 0;
}

abbrev empty_tree : FairShareTree
empty_tree = make_tree 0 604800

department_fresh : get 1 empty_tree.nodes ≡ none
unfolding make_tree
department_fresh = refl

empty_tree-IsRooted : IsRooted empty_tree.nodes empty_tree.root_id
unfolding make_tree
empty_tree-IsRooted = make_tree-IsRooted 0 604800

add_node-KeepsRooted_example : KeepsRooted (add_node empty_tree (child_of 0 1))
add_node-KeepsRooted_example =
    add_node-KeepsRooted empty_tree (child_of 0 1) 0 empty_tree-IsRooted department_fresh refl

abbrev team_tree : FairShareTree
team_tree = record {
  nodes = (0, root_node 0) ∷ (1, child_of 0 1) ∷ [];
  children = (0, 1 ∷ []) ∷ (1, []) ∷ [];
  root_id = 0;
  half_life_seconds = 604800;
}

team_added : add_node empty_tree (child_of 0 1) ≡ inr team_tree
unfolding add_node make_tree
team_added = refl

team_tree-IsRooted : IsRooted team_tree.nodes 0
team_tree-IsRooted =
    subst KeepsRooted team_added
      (add_node-KeepsRooted empty_tree (child_of 0 1) 0 empty_tree-IsRooted department_fresh refl)

record_usage-Records_example : Records team_tree 50 (record_usage team_tree 1 50 7)
record_usage-Records_example = record_usage-Records team_tree 1 50 7 team_tree-IsRooted refl

-- The department is moved below its own team: add_node accepts it, and the two are ancestors of each
-- other.
abbrev node_of : ℕ → ℕ → ℕ → ℕ → FairShareNode
node_of parent id usage timestamp = record (child_of parent id) {
  historical_usage = usage;
  last_decay_timestamp = timestamp;
}

abbrev looped : ℕ → ℕ → ℕ → ℕ → Dict FairShareNode
looped u v s t = (0, root_node 0) ∷ (1, node_of 2 1 u s) ∷ (2, node_of 1 2 v t) ∷ []

abbrev straight_tree : FairShareTree
straight_tree = record team_tree {
  nodes = (0, root_node 0) ∷ (1, child_of 0 1) ∷ (2, child_of 1 2) ∷ [];
  children = (0, 1 ∷ []) ∷ (1, 2 ∷ []) ∷ (2, []) ∷ [];
}

abbrev looped_tree : FairShareTree
looped_tree = record straight_tree {
  nodes = looped 0 0 0 0;
  children = (0, 1 ∷ []) ∷ (1, 2 ∷ []) ∷ (2, 1 ∷ []) ∷ [];
}

moved_below : add_node straight_tree (child_of 2 1) ≡ inr looped_tree
unfolding add_node
moved_below = refl

never_ends :
    (fuel delta now u v s t : ℕ)
    → (climb fuel delta now (some 1) (looped u v s t) ≡ unfinished)
      × (climb fuel delta now (some 2) (looped u v s t) ≡ unfinished)
unfolding climb
never_ends zero delta now u v s t = (refl, refl)
never_ends (suc fuel) delta now u v s t = (
  (never_ends fuel delta now (u + delta) v (max s now) t).1,
  (never_ends fuel delta now u (v + delta) s (max t now)).0,
)
