-- ===== src/Controller/Machine.antt =====
-- local.py beside lifecycle.py: submissions, and histories that keep to the
-- state machine of jobs.
use hexaqueue.Prelude.{
  ℕ, ◌≡◌, ==_iff, inl, inr, true, false, Option, none, some, List, [], ◌∷◌, ◌==◌, arith, Bool-cases,
  Bool, on_option, on_if, is_some,
}
use hexaqueue.Prelude.Lists.{any, All}
use hexaqueue.Prelude.Dict.{get, put, get-put}
use hexaqueue.Lifecycle.{JobState}
use hexaqueue.Dag.{Dependencies, is_job_ready}
use hexaqueue.Dag.Sorting.{validate_and_topological_sort}
use hexaqueue.Placement.{set_of}
use hexaqueue.Controller.{
  Controller, JobRecord, RunSubmission, StatusReason, with_state, Answer, ControllerError,
  CostModel, check_leadership,
}
use hexaqueue.Controller.Runs.{
  put_job, job_ids, advance_run, enqueue_initial, enqueue_each, enqueue_initial_jobs, build_dag,
  submit_run,
}
use hexaqueue.Controller.Legality.{KeepsTo, KeepsTo-refl, Advanced-KeepsTo, stays}
use hexaqueue.Controller.Passes.{Advanced}
use hexaqueue.Controller.Commands.{Command, BringsFresh, IsFresh, execute, after}
use hexaqueue.Controller.Nodes.{register_node}
use hexaqueue.Controller.Sound.{IsSound}
use hexaqueue.Controller.Invariant.{enqueue_each-IsSound}
use hexaqueue.Controller.Histories.{execute-AnswerSound, led-AnswerSound, after-IsSound}
use hexaqueue.Controller.Refinement.{
  AnswerKeeps, report-AnswerKeeps, cancel-AnswerKeeps, hold-AnswerKeeps, release-AnswerKeeps,
  cancel_run-AnswerKeeps, heartbeat-AnswerKeeps,
}
use hexaqueue.Controller.Settled.{advance_dependents-IsSettled}

-- The jobs of a controller are still stored as they were.
abbrev StillStored : Controller → Controller → Type 0
StillStored c c' = (k : ℕ) (job : JobRecord) → get k c.jobs ≡ some job → get k c'.jobs ≡ some job

put-StillStored :
    (c c' : Controller) (j : ℕ) (new : JobRecord)
    → get j c.jobs ≡ none
    → StillStored c c'
    → StillStored c (put_job j new c')
put-StillStored c c' j new n h k job e = elim (Bool-cases (k == j)) [
  | inl same ↦ cc (rw ((==_iff k j).0 same) at e, n)
  | inr other ↦ rw (get-put j k new c'.jobs, other) (h k job e)
]

enqueue_initial-StillStored :
    (violates : JobRecord → Bool) (dag : Dependencies) (job : JobRecord) (c c' : Controller)
    → get job.spec.id c.jobs ≡ none
    → StillStored c c'
    → StillStored c (enqueue_initial violates dag job c')
unfolding enqueue_initial
enqueue_initial-StillStored violates dag job c c' n h =
    let stored = put-StillStored c c' job.spec.id job n h in
    on_if (StillStored c) (violates job) _ _ (put-StillStored c c' job.spec.id _ n h) (
      on_if (StillStored c) (is_job_ready dag job.spec.id []) _ _
        (put-StillStored c (put_job job.spec.id job c') job.spec.id
          (with_state job JobState.pending StatusReason.no_reason) n stored)
        stored)

enqueue_each-StillStored :
    (violates : JobRecord → Bool) (dag : Dependencies) (jobs : List JobRecord) (c c' : Controller)
    → any (λ j. is_some (get j.spec.id c.jobs)) jobs ≡ false
    → StillStored c c'
    → StillStored c (enqueue_each violates dag jobs c')
unfolding enqueue_each
enqueue_each-StillStored violates dag [] c c' n h = h
enqueue_each-StillStored violates dag (job ∷ jobs) c c' n h =
    enqueue_each-StillStored violates dag jobs c (enqueue_initial violates dag job c')
      (ground (arith, n)) (enqueue_initial-StillStored violates dag job c c' (ground (arith, n)) h)

advance_run-Advanced :
    (submission : RunSubmission) (dag : Dependencies) (c : Controller)
    → IsSound c
    → (k : ℕ) → Advanced (get k c.jobs) (get k (advance_run submission dag c).jobs)
unfolding advance_run
advance_run-Advanced submission dag c i =
    (advance_dependents-IsSettled dag (job_ids submission) c.jobs c.queue
      (λ k job e. (i.jobs_sound k job e).valid)).2

enqueue_initial_jobs-KeepsTo :
    (violates : JobRecord → Bool) (submission : RunSubmission) (dag : Dependencies)
    (c c' : Controller)
    → any (λ j. is_some (get j.spec.id c.jobs)) submission.jobs ≡ false
    → All IsFresh submission.jobs
    → StillStored c c'
    → IsSound c'
    → KeepsTo c.jobs (enqueue_initial_jobs violates submission dag c').jobs
unfolding enqueue_initial_jobs
enqueue_initial_jobs-KeepsTo violates submission dag c c' n f h i =
    let all : Controller = enqueue_each violates dag submission.jobs c' in
    let kept : KeepsTo c.jobs all.jobs = λ k job e. (
      job,
      enqueue_each-StillStored violates dag submission.jobs c c' n h k job e,
      stays job.status.state,
    ) in
    on_if (λ (x : Controller). KeepsTo c.jobs x.jobs) (any violates submission.jobs) _ all
      (Advanced-KeepsTo c.jobs all.jobs _ kept (
        advance_run-Advanced submission dag all
          (enqueue_each-IsSound violates dag submission.jobs c' f i)))
      kept

submit-AnswerKeeps :
    (violates : JobRecord → Bool) (c : Controller) (submission : RunSubmission)
    → All IsFresh submission.jobs
    → IsSound c
    → AnswerKeeps c (submit_run violates c submission)
unfolding submit_run
submit-AnswerKeeps violates c submission f i =
    on_if (AnswerKeeps c) (is_some (get submission.id c.runs)) (inl ControllerError.run_registered)
      _ tt
      (elim (Bool-cases (any (λ j. is_some (get j.spec.id c.jobs)) submission.jobs)) [
        | inl known ↦ rw known tt
        | inr unknown ↦ rw unknown (
            on_option (AnswerKeeps c) (build_dag submission.dependencies [])
              (inl ControllerError.self_dependency) _ tt
              λ dag e.
                on_option (AnswerKeeps c)
                  (validate_and_topological_sort dag (set_of (job_ids submission)))
                  (inl ControllerError.dependency_cycle) _ tt
                  λ order g.
                    enqueue_initial_jobs-KeepsTo violates submission dag c
                      (record c {
                        runs = put submission.id submission c.runs;
                        dag_engines = put submission.id dag c.dag_engines;
                      })
                      unknown f (λ k job h. h)
                      (record {
                        jobs_sound = i.jobs_sound;
                        unique = i.unique;
                        queue_pending = i.queue_pending;
                      }))
      ])

-- The calls other than audits of nodes, placements and rewinds.
abbrev pub is_ordinary : Command → Bool
is_ordinary (Command.audit _ _ _) = false
is_ordinary (Command.schedule _ _ _ _ _) = false
is_ordinary (Command.rewind _ _) = false
is_ordinary _ = true

execute-AnswerKeeps :
    (model : Option CostModel) (violates : JobRecord → Bool) (command : Command) (c : Controller)
    → is_ordinary command ≡ true
    → BringsFresh command
    → IsSound c
    → AnswerKeeps c (execute model violates command c)
unfolding execute register_node
execute-AnswerKeeps model violates (Command.submit s) c o h i = submit-AnswerKeeps violates c s h i
execute-AnswerKeeps model violates (Command.report now j out reason w x) c o h i =
    report-AnswerKeeps model now c j out reason w x i
execute-AnswerKeeps model violates (Command.cancel_one now j) c o h i =
    cancel-AnswerKeeps model now c j i
execute-AnswerKeeps model violates (Command.cancel_all now r) c o h i =
    cancel_run-AnswerKeeps model now c r
execute-AnswerKeeps model violates (Command.hold j) c o h i = hold-AnswerKeeps c j
execute-AnswerKeeps model violates (Command.release j) c o h i = release-AnswerKeeps c j
execute-AnswerKeeps model violates (Command.register profile) c o h i = KeepsTo-refl c.jobs
execute-AnswerKeeps model violates (Command.heartbeat now w active cached) c o h i =
    heartbeat-AnswerKeeps now c w active cached
execute-AnswerKeeps model violates (Command.audit now tu td) c o h i = cc o
execute-AnswerKeeps model violates (Command.schedule now hold_id threshold hash_map j) c o h i =
    cc o
execute-AnswerKeeps model violates (Command.rewind r targets) c o h i = cc o

led-AnswerKeeps :
    (c : Controller) (leads : Option Bool) (answer : Answer Controller)
    → AnswerKeeps c answer
    → AnswerKeeps c (check_leadership leads answer)
unfolding check_leadership
led-AnswerKeeps c none answer s = s
led-AnswerKeeps c (some true) answer s = s
led-AnswerKeeps c (some false) answer s = tt

after-KeepsTo :
    (c : Controller) (answer : Answer Controller)
    → AnswerKeeps c answer
    → KeepsTo c.jobs (after c answer).jobs
after-KeepsTo c (inl e) s = KeepsTo-refl c.jobs
after-KeepsTo c (inr c') s = s

-- Call by call, each stored job stays stored, in its state or in one that the machine permits next.
abbrev pub Follows :
    Option CostModel → (JobRecord → Bool) → Controller → List (Option Bool × Command) → Type 0
Follows model violates c [] = Unit
Follows model violates c ((leads, command) ∷ commands) =
    let c' = after c (check_leadership leads (execute model violates command c)) in
    KeepsTo c.jobs c'.jobs × Follows model violates c' commands

-- In a history without audits of nodes, placements and rewinds (the calls that can make a change which
-- the transition table does not permit), whose submissions bring jobs with valid statuses, no more
-- retries than their policies allow, and no worker on a submitted one, from a controller that is
-- sound, every single call leaves each stored job in its state or moves it by one transition that the
-- table permits.
pub run-Follows :
    (model : Option CostModel) (violates : JobRecord → Bool)
    (commands : List (Option Bool × Command)) (c : Controller)
    → All (λ e. is_ordinary e.1 ≡ true) commands
    → All (λ e. BringsFresh e.1) commands
    → IsSound c
    → Follows model violates c commands
run-Follows model violates [] c o h i = tt
run-Follows model violates ((leads, command) ∷ commands) c o h i =
    let answer : Answer Controller = check_leadership leads (execute model violates command c) in
    (
      after-KeepsTo c answer
          (led-AnswerKeeps c leads _ (execute-AnswerKeeps model violates command c o.0 h.0 i)),
      run-Follows model violates commands (after c answer) o.1 h.1 (
          after-IsSound c answer i
            (led-AnswerSound leads _ (execute-AnswerSound model violates command c h.0 i))),
    )
