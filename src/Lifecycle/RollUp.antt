-- ===== src/Lifecycle/RollUp.antt =====
-- lifecycle.py: the states and outcomes of a run, from those that occur among its jobs.
use hexaqueue.Prelude.{◌≡◌, Bool, true, false, not, ◌||◌, List, [], ◌∷◌, arith}
use hexaqueue.Prelude.Lists.{all, any, filter}
use hexaqueue.Lifecycle.{
  JobState, TerminalOutcome, RunState, RunOutcome, same_state, in_states, active_states,
  compute_run_state, same_outcome, compute_run_outcome, is_empty,
}

-- Some job is in this state, or in one of the active states.
abbrev pub occurs : JobState → List JobState → Bool
occurs s = any (same_state s)

abbrev pub active_occurs : List JobState → Bool
active_occurs ss =
    occurs JobState.pending ss
    || (occurs JobState.provisioning ss
        || (occurs JobState.running ss || occurs JobState.cleanup ss))

-- The state of a run by the states that occur in it.
abbrev pub rolled_up : (submitted_occurs blocked_occurs active_occur done_occurs : Bool) → RunState
rolled_up false false false _ = RunState.done
rolled_up s b true d = RunState.running
rolled_up true false false false = RunState.submitted
rolled_up false true false d = RunState.blocked
rolled_up _ _ _ _ = RunState.running

abbrev uncompleted : List JobState → List JobState
uncompleted = filter (λ s. not (same_state s JobState.done))

-- The tests of the code by the states that occur.
record ByOccurrence (ss : List JobState) : Type 0 where
  empty :
      is_empty ss
      ≡ not (
          occurs JobState.submitted ss
          || (occurs JobState.blocked ss || (active_occurs ss || occurs JobState.done ss)))
  all_done :
      all (λ s. same_state s JobState.done) ss
      ≡ not (occurs JobState.submitted ss || (occurs JobState.blocked ss || active_occurs ss))
  all_submitted :
      all (λ s. same_state s JobState.submitted) ss
      ≡ not (occurs JobState.blocked ss || (active_occurs ss || occurs JobState.done ss))
  any_active : any (λ s. in_states s active_states) ss ≡ active_occurs ss
  completed :
      is_empty (uncompleted ss)
      ≡ not (occurs JobState.submitted ss || (occurs JobState.blocked ss || active_occurs ss))
  all_blocked :
      all (λ s. same_state s JobState.blocked) (uncompleted ss)
      ≡ not (occurs JobState.submitted ss || active_occurs ss)

by_occurrence : (ss : List JobState) → ByOccurrence ss
by_occurrence [] = ground arith
by_occurrence (JobState.submitted ∷ ss) = let ih = by_occurrence ss in ground arith
by_occurrence (s ∷ ss) = let ih = by_occurrence ss in ground arith

-- The state of a run is decided by the states that occur among its jobs, whatever their order and
-- number: running if an active state occurs, and otherwise done, submitted, blocked or running by
-- the other three.
pub compute_run_state-rolled_up :
    (ss : List JobState)
    → compute_run_state ss
      ≡ rolled_up
          (occurs JobState.submitted ss)
          (occurs JobState.blocked ss)
          (active_occurs ss)
          (occurs JobState.done ss)
unfolding compute_run_state
compute_run_state-rolled_up ss = let b = by_occurrence ss in ground arith

abbrev pub outcome_occurs : TerminalOutcome → List TerminalOutcome → Bool
outcome_occurs o = any (same_outcome o)

-- The outcome of a run by whether jobs completed, were stopped (cancelled or preempted), or failed
-- (failed or timed out).
abbrev pub concluded : (completes stops fails : Bool) → RunOutcome
concluded completes false false = RunOutcome.succeeded
concluded false true false = RunOutcome.cancelled
concluded false false true = RunOutcome.failed
concluded _ _ _ = RunOutcome.partially_failed

record OutcomesOccur (os : List TerminalOutcome) : Type 0 where
  empty :
      is_empty os
      ≡ not (
          outcome_occurs TerminalOutcome.completed os
          || ((outcome_occurs TerminalOutcome.cancelled os
                || outcome_occurs TerminalOutcome.preempted os)
              || (outcome_occurs TerminalOutcome.failed os
                  || outcome_occurs TerminalOutcome.timed_out os)))
  all_completed :
      all (same_outcome TerminalOutcome.completed) os
      ≡ not (
          (outcome_occurs TerminalOutcome.cancelled os
            || outcome_occurs TerminalOutcome.preempted os)
          || (outcome_occurs TerminalOutcome.failed os
              || outcome_occurs TerminalOutcome.timed_out os))
  all_stopped :
      all
        (λ o. same_outcome TerminalOutcome.cancelled o || same_outcome TerminalOutcome.preempted o)
        os
      ≡ not (
          outcome_occurs TerminalOutcome.completed os
          || (outcome_occurs TerminalOutcome.failed os
              || outcome_occurs TerminalOutcome.timed_out os))
  all_failed :
      all
        (λ o. same_outcome TerminalOutcome.failed o || same_outcome TerminalOutcome.timed_out o)
        os
      ≡ not (
          outcome_occurs TerminalOutcome.completed os
          || (outcome_occurs TerminalOutcome.cancelled os
              || outcome_occurs TerminalOutcome.preempted os))

outcomes_occur : (os : List TerminalOutcome) → OutcomesOccur os
outcomes_occur [] = ground arith
outcomes_occur (TerminalOutcome.completed ∷ os) = let ih = outcomes_occur os in ground arith
outcomes_occur (o ∷ os) = let ih = outcomes_occur os in ground arith

-- The outcome of a run is decided by the outcomes that occur among its jobs.
pub compute_run_outcome-concluded :
    (os : List TerminalOutcome)
    → compute_run_outcome os
      ≡ concluded
          (outcome_occurs TerminalOutcome.completed os)
          (outcome_occurs TerminalOutcome.cancelled os
            || outcome_occurs TerminalOutcome.preempted os)
          (outcome_occurs TerminalOutcome.failed os || outcome_occurs TerminalOutcome.timed_out os)
unfolding compute_run_outcome
compute_run_outcome-concluded os = let b = outcomes_occur os in ground arith
