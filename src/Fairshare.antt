-- ===== src/Fairshare.antt =====
-- packages/hexaqueue_core/src/hexaqueue_core/domain/fairshare.py: the fair-share tree, its nodes, the
-- usage that is recorded up to the root, and the decay. Usage and shares are whole units.
pub mod Rooted
pub mod Recording
pub mod Examples
use hexaqueue.Prelude.{
  ℕ, zero, suc, ◌+◌, ◌-◌, max, ◌⊎◌, inl, inr, Bool, true, false, ◌&&◌, Option, none, some, List, [],
  ◌∷◌, ◌++◌, map, ltb, ◌==◌, if◌then◌else◌, get_or, not,
}
use hexaqueue.Prelude.Lists.{length, member}
use hexaqueue.Prelude.Dict.{Dict, get, put, contains}

pub record FairShareNode : Type 0 where
  pub id : ℕ
  pub parent_id : Option ℕ
  pub shares : ℕ
  pub historical_usage : ℕ
  pub last_decay_timestamp : ℕ

pub record FairShareTree : Type 0 where
  pub nodes : Dict FairShareNode
  pub children : Dict (List ℕ)
  pub root_id : ℕ
  pub half_life_seconds : ℕ

-- ValueError, by its cause.
pub data FairShareError : Type 0 where
  unknown_parent unknown_node half_life_not_positive : FairShareError

abbrev pub is_known : FairShareTree → Option ℕ → Bool
is_known t none = true
is_known t (some p) = contains p t.nodes

-- The list of the children of the parent, with the node appended if it is not there.
unfoldable pub link_child : ℕ → Option ℕ → Dict (List ℕ) → Dict (List ℕ)
link_child id none children = children
link_child id (some p) children =
    let siblings = get_or (get p children) [] in
    if member id siblings then put p siblings children else put p (siblings ++ id ∷ []) children

unfoldable pub add_node : FairShareTree → FairShareNode → FairShareError ⊎ FairShareTree
unfolding link_child
add_node t n =
    if is_known t n.parent_id
    then inr (record t {
      nodes = put n.id n t.nodes;
      children =
          link_child n.id n.parent_id
            (if contains n.id t.children then t.children else put n.id [] t.children);
    })
    else inl FairShareError.unknown_parent

abbrev pub root_node : ℕ → FairShareNode
root_node id = record {
  id = id;
  parent_id = none;
  shares = 1;
  historical_usage = 0;
  last_decay_timestamp = 0;
}

-- `__init__`, with the root that it adds.
unfoldable pub make_tree : ℕ → ℕ → FairShareTree
make_tree root_id half_life_seconds = record {
  nodes = (root_id, root_node root_id) ∷ [];
  children = (root_id, []) ∷ [];
  root_id = root_id;
  half_life_seconds = half_life_seconds;
}

abbrev pub used : ℕ → ℕ → FairShareNode → FairShareNode
used delta_usage timestamp n = record n {
  historical_usage = n.historical_usage + delta_usage;
  last_decay_timestamp = max n.last_decay_timestamp timestamp;
}

-- How the loop up to the root ends, with the nodes as they are then: behind a node without a parent, with
-- the KeyError of a parent that is not stored, or not within the fuel.
pub data Climbed : Type 0 where
  at_top : Dict FairShareNode → Climbed
  key_error : Dict FairShareNode → Climbed
  unfinished : Climbed

-- The loop, on fuel.
unfoldable pub climb : ℕ → ℕ → ℕ → Option ℕ → Dict FairShareNode → Climbed
climb fuel delta_usage timestamp none nodes = at_top nodes
climb zero delta_usage timestamp (some k) nodes = unfinished
climb (suc fuel) delta_usage timestamp (some k) nodes = elim (get k nodes) [
  | none ↦ key_error nodes
  | some n ↦
      climb fuel delta_usage timestamp n.parent_id (put k (used delta_usage timestamp n) nodes)
]

-- `delta_usage` is no negative number. One unit of fuel for each node.
unfoldable pub record_usage : FairShareTree → ℕ → ℕ → ℕ → FairShareError ⊎ Climbed
unfolding climb
record_usage t node_id delta_usage timestamp =
    if contains node_id t.nodes
    then inr (climb (length t.nodes) delta_usage timestamp (some node_id) t.nodes)
    else inl FairShareError.unknown_node
