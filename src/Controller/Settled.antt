-- ===== src/Controller/Settled.antt =====
-- local.py, _advance_dependents: the jobs of a run after the call.
use hexaqueue.Prelude.{
  ℕ, suc, ◌≤◌, ◌≡◌, refl, sym, ◌∙◌, true, Option, none, some, List, [], ◌∷◌, arith, if◌then◌else◌,
}
use hexaqueue.Prelude.Lists.{length, member, All, All-map}
use hexaqueue.Prelude.Dict.{Dict, get}
use hexaqueue.Dag.{
  DependencySpec, Dependencies, Outcomes, is_job_ready, is_job_blocked, all_satisfied, some_blocked,
  deps_of,
}
use hexaqueue.Controller.{JobRecord, Queue}
use hexaqueue.Controller.Advance.{Pass, collect_outcomes, advance_loop, advance_dependents}
use hexaqueue.Controller.Passes.{Advanced, is_idle}
use hexaqueue.Controller.Settling.{
  waiting, IsSynced, AreValid, recorded, recorded_or, collect_outcomes-get,
}
use hexaqueue.Controller.Rounds.{advance_loop-IsPassed}

all_satisfied-congr :
    (o o' : Outcomes)
    → ((k : ℕ) → get k o ≡ get k o')
    → (deps : List DependencySpec) → all_satisfied o deps ≡ all_satisfied o' deps
unfolding all_satisfied
all_satisfied-congr o o' h [] = refl
all_satisfied-congr o o' h (dep ∷ deps) =
    rw (h dep.parent_job_id, all_satisfied-congr o o' h deps) refl

some_blocked-congr :
    (o o' : Outcomes)
    → ((k : ℕ) → get k o ≡ get k o')
    → (deps : List DependencySpec) → some_blocked o deps ≡ some_blocked o' deps
unfolding some_blocked
some_blocked-congr o o' h [] = refl
some_blocked-congr o o' h (dep ∷ deps) =
    rw (h dep.parent_job_id, some_blocked-congr o o' h deps) refl

IsSynced-agree :
    (ids : List ℕ) (p : Pass)
    → IsSynced ids p
    → (k : ℕ) → get k p.outcomes ≡ get k (collect_outcomes ids p.jobs [])
IsSynced-agree ids p s k = s k ∙ (same (get k p.jobs) ∙ sym (collect_outcomes-get ids p.jobs [] k))
  where
    same :
        (o : Option JobRecord)
        → (if member k ids then recorded o else none)
          ≡ (if member k ids then recorded_or o none else none)
    same none = refl
    same (some j) = refl

start-IsSynced :
    (ids : List ℕ) (jobs : Dict JobRecord) (queue : Queue)
    → IsSynced ids (record {
      jobs = jobs;
      queue = queue;
      outcomes = collect_outcomes ids jobs [];
      changed = true;
    })
start-IsSynced ids jobs queue k = collect_outcomes-get ids jobs [] k ∙ same (get k jobs)
  where
    same :
        (o : Option JobRecord)
        → (if member k ids then recorded_or o none else none)
          ≡ (if member k ids then recorded o else none)
    same none = refl
    same (some j) = refl

few_waiting : (ids : List ℕ) (jobs : Dict JobRecord) → waiting ids jobs ≤ length ids
few_waiting [] jobs = omega arith
few_waiting (k ∷ ids) jobs = ground (arith, few_waiting ids jobs)

-- No submitted job of the run is ready or blocked, by the outcomes of the jobs now.
abbrev pub IsSettled : Dependencies → List ℕ → Dict JobRecord → Type 0
IsSettled dag ids jobs =
    All (λ k. is_idle dag (collect_outcomes ids jobs []) k (get k jobs) ≡ true) ids

is_idle-congr :
    (dag : Dependencies) (o o' : Outcomes) (k : ℕ) (stored : Option JobRecord)
    → ((k : ℕ) → get k o ≡ get k o')
    → is_idle dag o k stored ≡ true
    → is_idle dag o' k stored ≡ true
unfolding is_job_ready is_job_blocked
is_idle-congr dag o o' k stored h e =
    rw (← all_satisfied-congr o o' h (deps_of k dag), ← some_blocked-congr o o' h (deps_of k dag)) e

-- For jobs whose status is valid (an outcome exactly when done), the loop ends by itself, and when it
-- has ended no submitted job of the run is ready or blocked by the outcomes of the jobs as they are
-- then. Each job either stays as it was or was submitted and is now pending or blocked, and every
-- status is still valid.
pub advance_dependents-IsSettled :
    (dag : Dependencies) (ids : List ℕ) (jobs : Dict JobRecord) (queue : Queue)
    → AreValid jobs
    → let after = (advance_dependents dag ids jobs queue).jobs in
      IsSettled dag ids after × AreValid after × ((k : ℕ) → Advanced (get k jobs) (get k after))
unfolding advance_dependents
advance_dependents-IsSettled dag ids jobs queue v =
    let start : Pass = record {
      jobs = jobs;
      queue = queue;
      outcomes = collect_outcomes ids jobs [];
      changed = true;
    } in
    let after : Pass = advance_loop (suc (length ids)) dag ids start in
    let (passed, quiet) =
      advance_loop-IsPassed dag ids (suc (length ids)) start (omega (arith, few_waiting ids jobs)) v
        (start-IsSynced ids jobs queue) in
    (
      All-map (λ k. is_idle dag after.outcomes k (get k after.jobs) ≡ true)
          (λ k. is_idle dag (collect_outcomes ids after.jobs []) k (get k after.jobs) ≡ true)
          (λ k e.
            is_idle-congr dag after.outcomes (collect_outcomes ids after.jobs []) k
              (get k after.jobs) (IsSynced-agree ids after passed.synced) e)
          ids quiet,
      passed.valid,
      passed.advanced,
    )
