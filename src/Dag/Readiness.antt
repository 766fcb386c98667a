-- ===== src/Dag/Readiness.antt =====
-- dag.py: satisfied and blocking dependencies, ready and blocked jobs.
use hexaqueue.Prelude.{
  ℕ, ◌≡◌, refl, inl, inr, ◌⊎◌, Bool, false, not, ◌&&◌, ◌||◌, Option, none, some, List, [], ◌∷◌,
  ◌++◌, arith, ◌==◌, ==_iff, ◌≢◌, is_some, Bool-cases, get_or,
}
use hexaqueue.Prelude.Lists.{all}
use hexaqueue.Prelude.Dict.{get, put, get-put}
use hexaqueue.Lifecycle.{TerminalOutcome}
use hexaqueue.Dag.{
  TriggerCondition, DependencySpec, is_dependency_satisfied, is_dependency_blocked, Dependencies,
  deps_of, add_dependency, Outcomes, outcome_of, all_satisfied, is_job_ready, some_blocked,
  is_job_blocked,
}

-- A finished parent satisfies a condition or blocks it for good; an unfinished one does neither.
pub blocked-eq-not_satisfied :
    (c : TriggerCondition) (o : Option TerminalOutcome)
    → (is_dependency_blocked c o ≡ (is_some o && not (is_dependency_satisfied c o)))
      × ((is_some o && is_dependency_satisfied c o) ≡ is_dependency_satisfied c o)
unfolding is_dependency_blocked is_dependency_satisfied
blocked-eq-not_satisfied c o = ground arith

-- All parents in the list have finished.
abbrev pub all_finished : Outcomes → List DependencySpec → Bool
all_finished outcomes = all (λ dep. is_some (outcome_of outcomes dep))

lists_agree :
    (outcomes : Outcomes) (deps : List DependencySpec)
    → ((all_satisfied outcomes deps && some_blocked outcomes deps) ≡ false)
      × ((all_finished outcomes deps && not (some_blocked outcomes deps))
          ≡ all_satisfied outcomes deps)
unfolding all_satisfied some_blocked
lists_agree outcomes [] = (refl, refl)
lists_agree outcomes (dep ∷ deps) = ground (
  arith,
  lists_agree outcomes deps,
  blocked-eq-not_satisfied dep.condition (outcome_of outcomes dep),
)

-- A job is ready exactly when all its parents have finished and none of them blocks it, so it is
-- never ready and blocked at once.
pub ready-eq-finished_unblocked :
    (d : Dependencies) (child : ℕ) (outcomes : Outcomes)
    → ((all_finished outcomes (deps_of child d) && not (is_job_blocked d child outcomes))
        ≡ is_job_ready d child outcomes)
      × ((is_job_ready d child outcomes && is_job_blocked d child outcomes) ≡ false)
unfolding is_job_ready is_job_blocked
ready-eq-finished_unblocked d child outcomes =
    let (apart, agree) = lists_agree outcomes (deps_of child d) in (agree, apart)

satisfied-append :
    (outcomes : Outcomes) (xs : List DependencySpec) (x : DependencySpec)
    → all_satisfied outcomes (xs ++ x ∷ [])
      ≡ (all_satisfied outcomes xs && is_dependency_satisfied x.condition (outcome_of outcomes x))
unfolding all_satisfied
satisfied-append outcomes [] x = ground arith
satisfied-append outcomes (y ∷ ys) x = ground (arith, satisfied-append outcomes ys x)

ready_after :
    (d : Dependencies) (child other : ℕ) (dep : DependencySpec) (outcomes : Outcomes)
    → all_satisfied outcomes (deps_of other (put child (deps_of child d ++ dep ∷ []) d)) ≡ (
        all_satisfied outcomes (deps_of other d)
        && (not (other == child)
            || is_dependency_satisfied dep.condition (outcome_of outcomes dep)))
ready_after d child other dep outcomes =
    rw (get-put child other (deps_of child d ++ dep ∷ []) d) (elim (Bool-cases (other == child)) [
      | inl e ↦
          let same : other ≡ child = (==_iff other child).0 e in
          rw (e, same) (satisfied-append outcomes (deps_of child d) dep)
      | inr e ↦ rw e (ground arith)
    ])

-- A dependency that is accepted makes its child wait for one more condition, and changes no other
-- job; a dependency of a job on itself is refused.
pub add_dependency-ready :
    (d : Dependencies) (child parent other : ℕ) (c : TriggerCondition) (outcomes : Outcomes)
    → ((child ≡ parent) × (add_dependency d child parent c ≡ none))
      ⊎ ((child ≢ parent)
          × (d' : Dependencies) × (add_dependency d child parent c ≡ some d')
          × (is_job_ready d' other outcomes ≡ (
              is_job_ready d other outcomes
              && (not (other == child)
                  || is_dependency_satisfied c (get_or (get parent outcomes) none)))))
unfolding add_dependency is_job_ready
add_dependency-ready d child parent other c outcomes = elim (Bool-cases (child == parent)) [
  | inl e ↦ inl ((==_iff child parent).0 e, rw e)
  | inr e ↦ inr (ground arith, _, rw e, ready_after d child other _ outcomes)
]
