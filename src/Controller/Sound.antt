-- ===== src/Controller/Sound.antt =====
-- local.py: what the parts of the handlers keep about the stored and the queued jobs.
use hexaqueue.Prelude.{
  ℕ, ◌≤◌, ◌≡◌, refl, sym, subst, ◌∙◌, ==_iff, inl, inr, true, false, none, some, List, [], ◌∷◌,
  ◌==◌, Bool-cases, Option-cases, on_option, zero, suc,
}
use mathlib.Core.Option.{some_inj}
use hexaqueue.Prelude.Lists.{length, All}
use hexaqueue.Prelude.Dict.{Dict, get, put, get-put, Unique, Unique-put}
use hexaqueue.Lifecycle.{JobState, TerminalOutcome, same_state, status_valid}
use hexaqueue.Dag.{Dependencies}
use hexaqueue.Controller.{
  Controller, JobRecord, RunSubmission, StatusReason, with_state, with_outcome, in_state, Queue,
  enqueue,
}
use hexaqueue.Controller.Advance.{
  Pass, advance_job, advance_pass, advance_loop, advance_dependents, collect_outcomes,
}
use hexaqueue.Controller.Passes.{Advanced, Visit, idle, readied, stopped, advance_job-Visit}
use hexaqueue.Controller.Settled.{advance_dependents-IsSettled}
use hexaqueue.Controller.Runs.{job_ids, advance_run, advance_run_of}

-- The job that is stored under `k` has that identifier, an outcome exactly when it is done, no more
-- retries than its policy allows, and no worker while it is submitted.
pub record IsSoundJob (k : ℕ) (job : JobRecord) : Type 0 where
  pub valid : status_valid job.status ≡ true
  pub keyed : job.spec.id ≡ k
  pub bounded : job.retry_count ≤ job.max_retries
  pub unassigned : in_state JobState.submitted job ≡ true → job.assigned_worker_id ≡ none

abbrev pub AreSound : Dict JobRecord → Type 0
AreSound jobs = (k : ℕ) (job : JobRecord) → get k jobs ≡ some job → IsSoundJob k job

-- Sound jobs, each stored once, and only pending ones in the queue.
pub record IsSound (c : Controller) : Type 0 where
  pub jobs_sound : AreSound c.jobs
  pub unique : Unique c.jobs
  pub queue_pending : All (λ j. in_state JobState.pending j ≡ true) c.queue

pub put-AreSound :
    (k : ℕ) (job : JobRecord) (jobs : Dict JobRecord)
    → IsSoundJob k job
    → AreSound jobs
    → AreSound (put k job jobs)
put-AreSound k job jobs i s j job' e = elim (Bool-cases (j == k)) [
  | inl same ↦
      let now : job ≡ job' = some_inj.0 (rw (get-put k j job jobs, same) at e) in
      subst (λ n. IsSoundJob n job') (sym ((==_iff j k).0 same)) (subst (IsSoundJob k) now i)
  | inr other ↦ s j job' (rw (get-put k j job jobs, other) at e)
]

pub with_state-IsSoundJob :
    (k : ℕ) (job : JobRecord) (s : JobState) (why : StatusReason)
    → status_valid (record { state = s; outcome = none }) ≡ true
    → same_state s JobState.submitted ≡ false
    → IsSoundJob k job
    → IsSoundJob k (with_state job s why)
with_state-IsSoundJob k job s why v n i = record {
  valid = v;
  keyed = i.keyed;
  bounded = i.bounded;
  unassigned = λ e. cc (n, e);
}

pub with_outcome-IsSoundJob :
    (k : ℕ) (job : JobRecord) (o : TerminalOutcome) (why : StatusReason)
    → IsSoundJob k job
    → IsSoundJob k (with_outcome job o why)
unfolding status_valid
with_outcome-IsSoundJob k job o why i = record {
  valid = refl;
  keyed = i.keyed;
  bounded = i.bounded;
  unassigned = λ e. cc e;
}

pub enqueue-pending :
    (job : JobRecord) (queue : Queue)
    → in_state JobState.pending job ≡ true
    → All (λ j. in_state JobState.pending j ≡ true) queue
    → All (λ j. in_state JobState.pending j ≡ true) (enqueue job queue)
unfolding enqueue
enqueue-pending job [] p h = (p, tt)
enqueue-pending job (x ∷ queue) p h = (h.0, enqueue-pending job queue p h.1)

Advanced-AreSound :
    (jobs jobs' : Dict JobRecord)
    → ((k : ℕ) → Advanced (get k jobs) (get k jobs'))
    → AreSound jobs
    → AreSound jobs'
unfolding status_valid
Advanced-AreSound jobs jobs' h s k job e = elim (h k) [
  | inl same ↦ s k job (sym same ∙ e)
  | inr (old, was, _, inl now) ↦
      subst (IsSoundJob k) (some_inj.0 (sym now ∙ e)) (
        with_state-IsSoundJob k old JobState.pending StatusReason.no_reason refl refl (s k old was))
  | inr (old, was, _, inr now) ↦ subst (IsSoundJob k) (some_inj.0 (sym now ∙ e)) (
      with_state-IsSoundJob k old JobState.blocked StatusReason.upstream_failed refl refl
        (s k old was))
]

-- What a pass keeps besides the jobs.
record IsTidy (p : Pass) : Type 0 where
  queue_pending : All (λ j. in_state JobState.pending j ≡ true) p.queue
  unique : Unique p.jobs

Visit-IsTidy : (dag : Dependencies) (j : ℕ) (p p' : Pass) → Visit dag j p p' → IsTidy p → IsTidy p'
unfolding enqueue
Visit-IsTidy dag j p _ (idle h) q = q
Visit-IsTidy dag j p _ (readied stored e s r) q = record {
  queue_pending = enqueue-pending _ p.queue refl q.queue_pending;
  unique = Unique-put j _ p.jobs q.unique;
}
Visit-IsTidy dag j p _ (stopped stored e s b) q = record {
  queue_pending = q.queue_pending;
  unique = Unique-put j _ p.jobs q.unique;
}

pass-IsTidy :
    (dag : Dependencies) (ids : List ℕ) (p : Pass) → IsTidy p → IsTidy (advance_pass dag ids p)
unfolding advance_pass
pass-IsTidy dag [] p q = q
pass-IsTidy dag (j ∷ ids) p q =
    pass-IsTidy dag ids (advance_job dag j p)
      (Visit-IsTidy dag j p (advance_job dag j p) (advance_job-Visit dag j p) q)

loop-IsTidy :
    (fuel : ℕ) (dag : Dependencies) (ids : List ℕ) (p : Pass)
    → IsTidy p
    → IsTidy (advance_loop fuel dag ids p)
unfolding advance_loop
loop-IsTidy zero dag ids p q = q
loop-IsTidy (suc fuel) dag ids p q =
    let after : Pass = advance_pass dag ids (record p { changed = false }) in
    let now : IsTidy after =
      pass-IsTidy dag ids (record p { changed = false })
        (record { queue_pending = q.queue_pending; unique = q.unique }) in
    elim (Bool-cases after.changed) [
      | inl c ↦ rw c (loop-IsTidy fuel dag ids after now)
      | inr c ↦ rw c now
    ]

pub advance_run-IsSound :
    (submission : RunSubmission) (dag : Dependencies) (c : Controller)
    → IsSound c
    → IsSound (advance_run submission dag c)
unfolding advance_run advance_dependents
advance_run-IsSound submission dag c i =
    let (_, _, advanced) =
      advance_dependents-IsSettled dag (job_ids submission) c.jobs c.queue
        (λ k job e. (i.jobs_sound k job e).valid) in
    let tidy : IsTidy (advance_dependents dag (job_ids submission) c.jobs c.queue) =
      loop-IsTidy (suc (length (job_ids submission))) dag (job_ids submission)
        (record {
          jobs = c.jobs;
          queue = c.queue;
          outcomes = collect_outcomes (job_ids submission) c.jobs [];
          changed = true;
        })
        (record { queue_pending = i.queue_pending; unique = i.unique }) in
    record {
      jobs_sound = Advanced-AreSound c.jobs _ advanced i.jobs_sound;
      unique = tidy.unique;
      queue_pending = tidy.queue_pending;
    }

pub advance_run_of-IsSound :
    (run_id : ℕ) (c : Controller) → IsSound c → IsSound (advance_run_of run_id c)
unfolding advance_run_of
advance_run_of-IsSound run_id c i = elim (Option-cases (get run_id c.runs)) [
  | inl e ↦ subst IsSound (sym (rw (e, advance_run_of) refl)) i
  | inr (submission, e) ↦ elim (Option-cases (get run_id c.dag_engines)) [
    | inl f ↦ subst IsSound (sym (rw (e, f, advance_run_of) refl)) i
    | inr (dag, f) ↦
        subst IsSound (sym (rw (e, f, advance_run_of) refl))
          (advance_run-IsSound submission dag c i)
  ]
]

pub advance_run_of-Advanced :
    (run_id : ℕ) (c : Controller)
    → IsSound c
    → (k : ℕ) → Advanced (get k c.jobs) (get k (advance_run_of run_id c).jobs)
unfolding advance_run_of advance_run
advance_run_of-Advanced run_id c i k =
    on_option moved (get run_id c.runs) c _ (inl refl) λ submission e.
      on_option moved (get run_id c.dag_engines) c _ (inl refl) λ dag f.
        (advance_dependents-IsSettled dag (job_ids submission) c.jobs c.queue
            (λ k job e. (i.jobs_sound k job e).valid)).2
          k
  where
    moved : Controller → Type 0
    moved x = Advanced (get k c.jobs) (get k x.jobs)
