-- ===== src/Lifecycle/Examples.antt =====
-- Job states and outcomes of a run on which the theorems about the life cycle are applied.
use hexaqueue.Prelude.{◌↔◌, ◌≤◌, ◌≡◌, ◌||◌, refl, true, List, [], ◌∷◌}
use hexaqueue.Lifecycle.{
  JobState, RunState, TerminalOutcome, can_transition_job, compute_run_state, compute_run_outcome,
}
use hexaqueue.Lifecycle.Machine.{Reaches, here, next, phase, Reaches_iff, Reaches-done}
use hexaqueue.Lifecycle.RollUp.{
  occurs, active_occurs, rolled_up, compute_run_state-rolled_up, outcome_occurs, concluded,
  compute_run_outcome-concluded,
}

-- A job that is queued, set back to wait, and queued again.
requeued : Reaches JobState.pending JobState.running
unfolding can_transition_job
requeued = next {t = JobState.pending} (next {t = JobState.blocked} (next here refl) refl) refl

Reaches_iff_example :
    Reaches JobState.running JobState.pending ↔ (phase JobState.running ≤ phase JobState.pending)
Reaches_iff_example = Reaches_iff JobState.running JobState.pending

Reaches-done_example : Reaches JobState.submitted JobState.done
Reaches-done_example = Reaches-done JobState.submitted

provisioned_runs : can_transition_job JobState.provisioning JobState.running ≡ true
unfolding can_transition_job
provisioned_runs = refl

abbrev mixed_states : List JobState
mixed_states = JobState.submitted ∷ JobState.done ∷ JobState.blocked ∷ []

-- No job of the run is active, and still the run counts as running.
mixed_run : compute_run_state mixed_states ≡ RunState.running
unfolding compute_run_state
mixed_run = refl

compute_run_state-rolled_up_example :
    compute_run_state mixed_states
    ≡ rolled_up
        (occurs JobState.submitted mixed_states)
        (occurs JobState.blocked mixed_states)
        (active_occurs mixed_states)
        (occurs JobState.done mixed_states)
compute_run_state-rolled_up_example = compute_run_state-rolled_up mixed_states

abbrev mixed_outcomes : List TerminalOutcome
mixed_outcomes = TerminalOutcome.completed ∷ TerminalOutcome.timed_out ∷ []

compute_run_outcome-concluded_example :
    compute_run_outcome mixed_outcomes
    ≡ concluded
        (outcome_occurs TerminalOutcome.completed mixed_outcomes)
        (outcome_occurs TerminalOutcome.cancelled mixed_outcomes
          || outcome_occurs TerminalOutcome.preempted mixed_outcomes)
        (outcome_occurs TerminalOutcome.failed mixed_outcomes
          || outcome_occurs TerminalOutcome.timed_out mixed_outcomes)
compute_run_outcome-concluded_example = compute_run_outcome-concluded mixed_outcomes
