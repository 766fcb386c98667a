-- ===== src/Controller/Rewinding.antt =====
-- local.py, rewind_run: the jobs it resets and queues.
use mathlib.Core.Option.{some_inj}
use hexaqueue.Prelude.{
  ℕ, ◌≡◌, refl, sym, subst, ◌∙◌, inl, inr, true, Option, none, some, List, [], ◌∷◌, ◌==◌,
  Bool-cases, on_option,
}
use hexaqueue.Prelude.Members.{==_refl}
use hexaqueue.Prelude.Lists.{All, All-filter}
use hexaqueue.Prelude.Dict.{Dict, get, put, get-put, Unique, Unique-put}
use hexaqueue.Lifecycle.{JobState, status_valid}
use hexaqueue.Dag.{Dependencies}
use hexaqueue.Controller.{
  Controller, JobRecord, StatusReason, with_state, in_state, Queue, ControllerError,
}
use hexaqueue.Controller.Runs.{job_ids}
use hexaqueue.Controller.Rewind.{
  rewound_jobs, ready_jobs, rewind_targets, rewind_each, requeue_ready, rewind_found, rewind_run,
}
use hexaqueue.Controller.Sound.{IsSoundJob, AreSound, IsSound, put-AreSound, enqueue-pending}
use hexaqueue.Controller.Answers.{ResultSound}

abbrev IsRewindable : Dict JobRecord → Type 0
IsRewindable jobs = AreSound jobs × Unique jobs

rewind_each_sound :
    (ids : List ℕ) (jobs : Dict JobRecord) → IsRewindable jobs → IsRewindable (rewind_each ids jobs)
unfolding rewind_each status_valid
rewind_each_sound [] jobs i = i
rewind_each_sound (j ∷ ids) jobs i = rewind_each_sound ids _ (
    on_option IsRewindable (get j jobs) jobs _ i λ current e.
      let here : IsSoundJob j current = i.0 j current e in
      (
        put-AreSound j _ jobs
            (record {
              valid = refl;
              keyed = here.keyed;
              bounded = here.bounded;
              unassigned = λ n. refl;
            })
            i.0,
        Unique-put j _ jobs i.1,
      ))

abbrev PendingAt : Dict JobRecord → ℕ → Type 0
PendingAt jobs k = (job : JobRecord) → get k jobs ≡ some job → in_state JobState.pending job ≡ true

put-PendingAt :
    (jobs : Dict JobRecord) (j k : ℕ) (new : JobRecord)
    → in_state JobState.pending new ≡ true
    → PendingAt jobs k
    → PendingAt (put j new jobs) k
put-PendingAt jobs j k new n h job e = elim (Bool-cases (k == j)) [
  | inl same ↦
      subst (λ x. in_state JobState.pending x ≡ true)
        (some_inj.0 (rw (get-put j k new jobs, same) at e)) n
  | inr other ↦ h job (rw (get-put j k new jobs, other) at e)
]

self-PendingAt :
    (jobs : Dict JobRecord) (j : ℕ) (new : JobRecord)
    → in_state JobState.pending new ≡ true
    → PendingAt (put j new jobs) j
self-PendingAt jobs j new n job e =
    subst (λ x. in_state JobState.pending x ≡ true)
      (some_inj.0 (rw (get-put j j new jobs, ==_refl j) at e)) n

keeps-PendingAt :
    (ids : List ℕ) (jobs : Dict JobRecord) (k : ℕ)
    → PendingAt jobs k
    → PendingAt (rewind_each ids jobs) k
unfolding rewind_each
keeps-PendingAt [] jobs k h = h
keeps-PendingAt (j ∷ ids) jobs k h = keeps-PendingAt ids _ k (
    on_option (λ d. PendingAt d k) (get j jobs) jobs _ h
      λ current e. put-PendingAt jobs j k _ refl h)

rewound-PendingAt :
    (ids : List ℕ) (jobs : Dict JobRecord) → All (PendingAt (rewind_each ids jobs)) ids
unfolding rewind_each
rewound-PendingAt [] jobs = tt
rewound-PendingAt (j ∷ ids) jobs =
    (keeps-PendingAt ids _ j (on_missing (get j jobs) refl), rewound-PendingAt ids _)
  where
    on_missing :
        (o : Option JobRecord)
        → get j jobs ≡ o
        → PendingAt
            (elim o [
              | none ↦ jobs
              | some current ↦
                  put j
                    (record (with_state current JobState.pending StatusReason.dag_rewind) {
                      assigned_worker_id = none;
                    })
                    jobs
            ])
            j
    on_missing none e = λ job f. cc (sym e ∙ f)
    on_missing (some current) e = self-PendingAt jobs j _ refl

requeue-pending :
    (jobs : Dict JobRecord) (ids : List ℕ) (queue : Queue)
    → All (PendingAt jobs) ids
    → All (λ j. in_state JobState.pending j ≡ true) queue
    → All (λ j. in_state JobState.pending j ≡ true) (requeue_ready jobs ids queue)
unfolding requeue_ready
requeue-pending jobs [] queue h q = q
requeue-pending jobs (j ∷ ids) queue h q = requeue-pending jobs ids _ h.1 (
    on_option (All (λ j. in_state JobState.pending j ≡ true)) (get j jobs) queue _ q
      λ job e. enqueue-pending job queue (h.0 job e) q)

ready-PendingAt :
    (dag : Dependencies) (jobs : Dict JobRecord) (ids : List ℕ)
    → All (PendingAt jobs) ids
    → All (PendingAt jobs) (ready_jobs dag jobs ids)
unfolding ready_jobs
ready-PendingAt dag jobs ids h = All-filter (PendingAt jobs) _ ids h

pub rewind-ResultSound :
    (c : Controller) (run_id : ℕ) (targets : List ℕ)
    → IsSound c
    → ResultSound (rewind_run c run_id targets)
unfolding rewind_run rewind_found
rewind-ResultSound c run_id targets i =
    on_option ResultSound (get run_id c.runs) (inl ControllerError.run_not_found) _ tt
      λ submission e.
        on_option ResultSound (get run_id c.dag_engines) (inl ControllerError.dag_not_found) _ tt
          λ dag f.
            let ids = job_ids submission in
            let rewound = rewound_jobs dag (rewind_targets c.jobs ids targets) ids in
            let jobs = rewind_each rewound c.jobs in
            let ready = ready_jobs dag jobs rewound in
            let (sound, unique) = rewind_each_sound rewound c.jobs (i.jobs_sound, i.unique) in
            record {
              jobs_sound = sound;
              unique = unique;
              queue_pending =
                  requeue-pending jobs ready c.queue
                    (ready-PendingAt dag jobs rewound (rewound-PendingAt rewound c.jobs))
                    i.queue_pending;
            }
