-- ===== src/Controller/Advance.antt =====
-- local.py, _advance_dependents: the passes over the jobs of a run. The loop runs on fuel.
use hexaqueue.Prelude.{
  ℕ, zero, suc, Bool, true, false, Option, none, some, List, [], ◌∷◌, if◌then◌else◌,
}
use hexaqueue.Prelude.Lists.{length}
use hexaqueue.Prelude.Dict.{Dict, get, put}
use hexaqueue.Lifecycle.{JobState, TerminalOutcome}
use hexaqueue.Dag.{Dependencies, Outcomes, is_job_ready, is_job_blocked}
use hexaqueue.Controller.{JobRecord, with_state, in_state, StatusReason, Queue, enqueue}

-- A blocked job counts as failed.
unfoldable pub outcome_now : JobRecord → Option TerminalOutcome
outcome_now j =
    if in_state JobState.blocked j then some TerminalOutcome.failed else j.status.outcome

-- The first loop. A job of the run is always stored, so the KeyError of a missing one is left out.
unfoldable pub collect_outcomes : List ℕ → Dict JobRecord → Outcomes → Outcomes
unfolding outcome_now
collect_outcomes [] jobs outcomes = outcomes
collect_outcomes (j ∷ ids) jobs outcomes =
    collect_outcomes ids jobs
      (elim (get j jobs) [ none ↦ outcomes | some job ↦ put j (outcome_now job) outcomes ])

-- The local variables of the loop, and the parts of the controller that it changes.
pub record Pass : Type 0 where
  pub jobs : Dict JobRecord
  pub queue : Queue
  pub outcomes : Outcomes
  pub changed : Bool

-- The body of the inner loop for a job that is stored as `stored`.
unfoldable pub advance_stored : Dependencies → ℕ → JobRecord → Pass → Pass
unfolding enqueue
advance_stored dag j stored p =
    let ready_job = with_state stored JobState.pending StatusReason.no_reason in
    let blocked_job = with_state stored JobState.blocked StatusReason.upstream_failed in
    if in_state JobState.submitted stored
    then if is_job_ready dag j p.outcomes
      then record p { jobs = put j ready_job p.jobs; queue = enqueue ready_job p.queue }
      else if is_job_blocked dag j p.outcomes
      then record p {
        jobs = put j blocked_job p.jobs;
        outcomes = put j (some TerminalOutcome.failed) p.outcomes;
        changed = true;
      }
      else p
    else p

unfoldable pub advance_job : Dependencies → ℕ → Pass → Pass
unfolding advance_stored
advance_job dag j p = elim (get j p.jobs) [ none ↦ p | some stored ↦ advance_stored dag j stored p ]

unfoldable pub advance_pass : Dependencies → List ℕ → Pass → Pass
unfolding advance_job
advance_pass dag [] p = p
advance_pass dag (j ∷ ids) p = advance_pass dag ids (advance_job dag j p)

-- `while changed`
unfoldable pub advance_loop : ℕ → Dependencies → List ℕ → Pass → Pass
unfolding advance_pass
advance_loop zero dag ids p = p
advance_loop (suc fuel) dag ids p =
    let after = advance_pass dag ids (record p { changed = false }) in
    let rest = advance_loop fuel dag ids after in if after.changed then rest else after

-- Each pass but the last blocks a job.
unfoldable pub advance_dependents : Dependencies → List ℕ → Dict JobRecord → Queue → Pass
unfolding advance_loop collect_outcomes
advance_dependents dag ids jobs queue =
    advance_loop (suc (length ids)) dag ids (record {
      jobs = jobs;
      queue = queue;
      outcomes = collect_outcomes ids jobs [];
      changed = true;
    })
