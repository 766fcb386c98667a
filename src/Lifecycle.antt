-- ===== src/Lifecycle.antt =====
-- packages/hexaqueue_core/src/hexaqueue_core/domain/lifecycle.py: job states, their transitions, and
-- the roll-up of job states and outcomes into those of a run.
pub mod Machine
pub mod RollUp
pub mod Examples
use hexaqueue.Prelude.{
  ℕ, Bool, true, false, not, ◌&&◌, ◌||◌, Option, none, some, List, [], ◌∷◌, ◌==◌, if◌then◌else◌,
}
use hexaqueue.Prelude.Lists.{all, any, filter}

pub data JobState : Type 0 where
  submitted blocked pending provisioning running cleanup done : JobState

pub data TerminalOutcome : Type 0 where
  completed failed cancelled timed_out preempted : TerminalOutcome

pub data RunState : Type 0 where
  submitted blocked running done : RunState

pub data RunOutcome : Type 0 where
  succeeded failed partially_failed cancelled : RunOutcome

abbrev pub state_index : JobState → ℕ
state_index JobState.submitted = 0
state_index JobState.blocked = 1
state_index JobState.pending = 2
state_index JobState.provisioning = 3
state_index JobState.running = 4
state_index JobState.cleanup = 5
state_index JobState.done = 6

-- `a == b` on states
abbrev pub same_state : JobState → JobState → Bool
same_state a b = state_index a == state_index b

abbrev pub in_states : JobState → List JobState → Bool
in_states s = any (same_state s)

abbrev pub valid_job_transitions : JobState → List JobState
valid_job_transitions JobState.submitted = JobState.blocked ∷ JobState.pending ∷ JobState.done ∷ []
valid_job_transitions JobState.blocked = JobState.pending ∷ JobState.done ∷ []
valid_job_transitions JobState.pending =
    JobState.provisioning ∷ JobState.running ∷ JobState.blocked ∷ JobState.done ∷ []
valid_job_transitions JobState.provisioning =
    JobState.running ∷ JobState.pending ∷ JobState.done ∷ []
valid_job_transitions JobState.running = JobState.cleanup ∷ JobState.done ∷ []
valid_job_transitions JobState.cleanup = JobState.done ∷ []
valid_job_transitions JobState.done = []

unfoldable pub can_transition_job : JobState → JobState → Bool
can_transition_job from_state to_state =
    if same_state from_state to_state
    then true
    else in_states to_state (valid_job_transitions from_state)

abbrev pub active_states : List JobState
active_states = JobState.pending ∷ JobState.provisioning ∷ JobState.running ∷ JobState.cleanup ∷ []

abbrev pub is_empty {ℓ} : {A : Type ℓ} → List A → Bool
is_empty [] = true
is_empty (x ∷ xs) = false

unfoldable pub compute_run_state : List JobState → RunState
compute_run_state job_states =
    let uncompleted = filter (λ s. not (same_state s JobState.done)) job_states in
    if is_empty job_states
    then RunState.done
    else if all (λ s. same_state s JobState.done) job_states
    then RunState.done
    else if all (λ s. same_state s JobState.submitted) job_states
    then RunState.submitted
    else if any (λ s. in_states s active_states) job_states
    then RunState.running
    else if not (is_empty uncompleted) && all (λ s. same_state s JobState.blocked) uncompleted
    then RunState.blocked
    else RunState.running

abbrev pub outcome_index : TerminalOutcome → ℕ
outcome_index TerminalOutcome.completed = 0
outcome_index TerminalOutcome.failed = 1
outcome_index TerminalOutcome.cancelled = 2
outcome_index TerminalOutcome.timed_out = 3
outcome_index TerminalOutcome.preempted = 4

abbrev pub same_outcome : TerminalOutcome → TerminalOutcome → Bool
same_outcome a b = outcome_index a == outcome_index b

unfoldable pub compute_run_outcome : List TerminalOutcome → RunOutcome
compute_run_outcome job_outcomes =
    if is_empty job_outcomes
    then RunOutcome.succeeded
    else if all (same_outcome TerminalOutcome.completed) job_outcomes
    then RunOutcome.succeeded
    else if all
        (λ o. same_outcome TerminalOutcome.cancelled o || same_outcome TerminalOutcome.preempted o)
        job_outcomes
    then RunOutcome.cancelled
    else if all
        (λ o. same_outcome TerminalOutcome.failed o || same_outcome TerminalOutcome.timed_out o)
        job_outcomes
    then RunOutcome.failed
    else RunOutcome.partially_failed

pub record JobStatus : Type 0 where
  pub state : JobState
  pub outcome : Option TerminalOutcome

-- `validate_invariants`: false is a ValueError.
unfoldable pub status_valid : JobStatus → Bool
status_valid s =
    let is_done = same_state s.state JobState.done in
    elim s.outcome [ none ↦ not is_done | some _ ↦ is_done ]
