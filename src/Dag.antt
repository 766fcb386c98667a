-- ===== src/Dag.antt =====
-- packages/hexaqueue_core/src/hexaqueue_core/domain/dag.py: dependency conditions, readiness, and the
-- topological sort.
pub mod Readiness
pub mod Sorting
pub mod Counting
pub mod Order
pub mod Topological
pub mod Acyclic
pub mod Complete
pub mod Downstream
pub mod Reach
pub mod Examples
use hexaqueue.Prelude.{
  ℕ, Bool, true, false, not, ◌||◌, Option, none, some, List, [], ◌∷◌, ◌++◌, ◌==◌, if◌then◌else◌,
  get_or,
}
use hexaqueue.Prelude.Dict.{Dict, get, put}
use hexaqueue.Lifecycle.{TerminalOutcome, same_outcome}

pub data TriggerCondition : Type 0 where
  after_ok after_not_ok after_any after_corr : TriggerCondition

pub record DependencySpec : Type 0 where
  pub parent_job_id : ℕ
  pub condition : TriggerCondition

-- `outcome in (FAILED, TIMED_OUT)`
abbrev pub is_failure : TerminalOutcome → Bool
is_failure o = same_outcome TerminalOutcome.failed o || same_outcome TerminalOutcome.timed_out o

unfoldable pub is_dependency_satisfied : TriggerCondition → Option TerminalOutcome → Bool
is_dependency_satisfied c none = false
is_dependency_satisfied TriggerCondition.after_ok (some o) =
    same_outcome o TerminalOutcome.completed
is_dependency_satisfied TriggerCondition.after_not_ok (some o) = is_failure o
is_dependency_satisfied TriggerCondition.after_any (some o) = true
is_dependency_satisfied TriggerCondition.after_corr (some o) =
    same_outcome o TerminalOutcome.completed

unfoldable pub is_dependency_blocked : TriggerCondition → Option TerminalOutcome → Bool
is_dependency_blocked c none = false
is_dependency_blocked TriggerCondition.after_ok (some o) =
    not (same_outcome o TerminalOutcome.completed)
is_dependency_blocked TriggerCondition.after_not_ok (some o) = not (is_failure o)
is_dependency_blocked TriggerCondition.after_any (some o) = false
is_dependency_blocked TriggerCondition.after_corr (some o) =
    not (same_outcome o TerminalOutcome.completed)

-- The engine's state: the dependencies of each child.
abbrev pub Dependencies : Type 0
Dependencies = Dict (List DependencySpec)

abbrev pub deps_of : ℕ → Dependencies → List DependencySpec
deps_of child d = get_or (get child d) []

-- `none` is the ValueError on a self-dependency.
unfoldable pub add_dependency : Dependencies → ℕ → ℕ → TriggerCondition → Option Dependencies
add_dependency d child parent condition =
    if child == parent
    then none
    else some (
        put child (deps_of child d ++ record { parent_job_id = parent; condition = condition } ∷ [])
          d)

-- `parent_outcomes.get(parent)`: unknown parents are not done.
abbrev pub Outcomes : Type 0
Outcomes = Dict (Option TerminalOutcome)

abbrev pub outcome_of : Outcomes → DependencySpec → Option TerminalOutcome
outcome_of outcomes dep = get_or (get dep.parent_job_id outcomes) none

unfoldable pub all_satisfied : Outcomes → List DependencySpec → Bool
all_satisfied outcomes [] = true
all_satisfied outcomes (dep ∷ deps) =
    if not (is_dependency_satisfied dep.condition (outcome_of outcomes dep))
    then false
    else all_satisfied outcomes deps

unfoldable pub is_job_ready : Dependencies → ℕ → Outcomes → Bool
unfolding all_satisfied
is_job_ready d child outcomes = all_satisfied outcomes (deps_of child d)

unfoldable pub some_blocked : Outcomes → List DependencySpec → Bool
some_blocked outcomes [] = false
some_blocked outcomes (dep ∷ deps) =
    if is_dependency_blocked dep.condition (outcome_of outcomes dep)
    then true
    else some_blocked outcomes deps

unfoldable pub is_job_blocked : Dependencies → ℕ → Outcomes → Bool
unfolding some_blocked
is_job_blocked d child outcomes = some_blocked outcomes (deps_of child d)
