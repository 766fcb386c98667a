-- ===== src/Dag/Examples.antt =====
-- A job with two parents on which the theorems about dependencies are applied.
use mathlib.Core.List.{reverse}
use hexaqueue.Prelude.Lists.{length, member, Distinct}
use hexaqueue.Prelude.{ℕ, ◌≡◌, ◌↔◌, arith, refl, true, false, not, ◌&&◌, none, some, List, [], ◌∷◌}
use hexaqueue.Lifecycle.{TerminalOutcome}
use hexaqueue.Dag.{
  TriggerCondition, Dependencies, Outcomes, deps_of, is_dependency_satisfied, is_job_ready,
  is_job_blocked,
}
use hexaqueue.Dag.Sorting.{degrees, validate_and_topological_sort}
use hexaqueue.Dag.Topological.{IsClosed, validate_and_topological_sort-IsClosed}
use hexaqueue.Dag.Complete.{validate_and_topological_sort_complete}
use hexaqueue.Dag.Downstream.{get_downstream_dependents}
use hexaqueue.Dag.Reach.{Downstream, get_downstream_dependents-Downstream}
use hexaqueue.Dag.Readiness.{all_finished, ready-eq-finished_unblocked}

abbrev child : ℕ
child = 3

abbrev parent : ℕ
parent = 4

abbrev two_parents : Dependencies
two_parents =
    (
      3,
      record { parent_job_id = 1; condition = TriggerCondition.after_ok }
          ∷ record { parent_job_id = 2; condition = TriggerCondition.after_not_ok }
          ∷ [],
    )
    ∷ []

abbrev both_done : Outcomes
both_done = (1, some TerminalOutcome.completed) ∷ (2, some TerminalOutcome.failed) ∷ []

released_child : is_job_ready two_parents 3 both_done ≡ true
unfolding is_job_ready is_dependency_satisfied
released_child = refl

ready-eq-finished_unblocked_example :
    ((all_finished both_done (deps_of 3 two_parents)
        && not (is_job_blocked two_parents 3 both_done))
      ≡ is_job_ready two_parents 3 both_done)
    × ((is_job_ready two_parents 3 both_done && is_job_blocked two_parents 3 both_done) ≡ false)
ready-eq-finished_unblocked_example = ready-eq-finished_unblocked two_parents 3 both_done

abbrev some_jobs : List ℕ
some_jobs = 3 ∷ 2 ∷ 1 ∷ []

sorted_jobs : validate_and_topological_sort two_parents some_jobs ≡ some (1 ∷ 2 ∷ 3 ∷ [])
unfolding validate_and_topological_sort
sorted_jobs = refl

-- Two jobs that wait for each other.
abbrev circle : Dependencies
circle =
    (1, record { parent_job_id = 2; condition = TriggerCondition.after_ok } ∷ [])
    ∷ (2, record { parent_job_id = 1; condition = TriggerCondition.after_ok } ∷ [])
    ∷ []

refused_circle : validate_and_topological_sort circle (1 ∷ 2 ∷ []) ≡ none
unfolding validate_and_topological_sort
refused_circle = refl

validate_and_topological_sort-IsClosed_example :
    IsClosed two_parents (reverse (1 ∷ 2 ∷ 3 ∷ []))
    × Distinct (reverse (1 ∷ 2 ∷ 3 ∷ []))
    × (length {A = ℕ} (reverse (1 ∷ 2 ∷ 3 ∷ [])) ≡ length (degrees two_parents some_jobs).in_degree)
validate_and_topological_sort-IsClosed_example =
    validate_and_topological_sort-IsClosed two_parents some_jobs (1 ∷ 2 ∷ 3 ∷ [])
      (refl, (refl, (refl, tt))) sorted_jobs

-- The identifiers rank the jobs.
validate_and_topological_sort_complete_example :
    (order : List ℕ) × (validate_and_topological_sort two_parents some_jobs ≡ some order)
    × ((n : ℕ) → member n some_jobs ≡ true → member n (reverse order) ≡ true)
validate_and_topological_sort_complete_example =
    validate_and_topological_sort_complete (λ n. n) two_parents some_jobs (refl, (refl, (refl, tt)))
      ((omega arith, (omega arith, tt)), tt)

dependents_of_first : get_downstream_dependents two_parents (1 ∷ []) ≡ 3 ∷ []
unfolding get_downstream_dependents
dependents_of_first = refl

get_downstream_dependents-Downstream_example :
    Distinct (get_downstream_dependents two_parents (1 ∷ []))
    × ((n : ℕ)
        → (member n (get_downstream_dependents two_parents (1 ∷ [])) ≡ true)
          ↔ (Downstream two_parents (1 ∷ []) n × (member n (1 ∷ []) ≡ false)))
get_downstream_dependents-Downstream_example =
    get_downstream_dependents-Downstream two_parents (1 ∷ []) (refl, tt) (refl, tt)
