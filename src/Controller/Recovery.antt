-- ===== src/Controller/Recovery.antt =====
-- local.py: the recovery of the jobs of dead nodes.
use hexaqueue.Prelude.{
  ℕ, ◌≡◌, refl, sym, subst, ==_iff, inl, inr, some, List, [], ◌∷◌, ◌++◌, ◌==◌, arith, Bool-cases,
  ltb→lt, ltb, ◌&&◌, ◌-◌,
}
use hexaqueue.Prelude.Members.{==_refl}
use hexaqueue.Prelude.Lists.{All, All-filter}
use hexaqueue.Prelude.Dict.{Dict, get, Unique, values}
use hexaqueue.Lifecycle.{status_valid}
use hexaqueue.Placement.Node.{
  ComputeNodeProfile, is_healthy, mark_dead, mark_drained, mark_unhealthy,
}
use hexaqueue.Controller.{Controller, DeadLetterRecord, JobRecord, enqueue}
use hexaqueue.Controller.Runs.{put_job}
use hexaqueue.Controller.Nodes.{
  requeued, exhausted, dead_letter, is_in_flight, recover_job, recover_each, recover_dead_node_jobs,
  is_alive, put_node, evaluate_node, evaluate_nodes,
}
use hexaqueue.Controller.Sound.{
  IsSoundJob, AreSound, IsSound, enqueue-pending, advance_run_of-IsSound,
}
use hexaqueue.Controller.Invariant.{put_job-IsSound}

-- Stored jobs are sound under their own identifiers.
pub stored_sound :
    (jobs : Dict JobRecord)
    → Unique jobs
    → AreSound jobs
    → All (λ job. IsSoundJob job.spec.id job) (values jobs)
stored_sound [] u s = tt
stored_sound ((k, job) ∷ jobs) u s = (
  subst (λ n. IsSoundJob n job) (sym here.keyed) here,
  stored_sound jobs u.1 λ j other e. s j other (later j other e),
)
  where
    here : IsSoundJob k job
    here = s k job (rw (==_refl k) refl)

    later :
        (j : ℕ) (other : JobRecord) → get j jobs ≡ some other → get j ((k, job) ∷ jobs) ≡ some other
    later j other e = elim (Bool-cases (j == k)) [
      | inl same ↦ cc (rw ((==_iff j k).0 same) at e, u.0)
      | inr differs ↦ rw differs e
    ]

pub exhausted-IsSound :
    (letters : List DeadLetterRecord) (job : JobRecord) (c : Controller)
    → IsSoundJob job.spec.id job
    → IsSound c
    → IsSound (record (put_job job.spec.id (exhausted job) c) { dead_letters = letters })
unfolding status_valid
exhausted-IsSound letters job c s i =
    let failed : IsSound (put_job job.spec.id (exhausted job) c) =
      put_job-IsSound job.spec.id (exhausted job) c.queue c
        (record { valid = refl; keyed = refl; bounded = s.bounded; unassigned = λ n. refl })
        i.queue_pending i in
    record {
      jobs_sound = failed.jobs_sound;
      unique = failed.unique;
      queue_pending = failed.queue_pending;
    }

pub recover_job-IsSound :
    (node_id now : ℕ) (job : JobRecord) (c : Controller)
    → IsSoundJob job.spec.id job
    → IsSound c
    → IsSound (recover_job node_id now job c)
unfolding recover_job status_valid
recover_job-IsSound node_id now job c s i =
    elim (Bool-cases (ltb job.retry_count job.max_retries)) [
      | inl e ↦ subst IsSound (sym (rw (e, recover_job) refl)) (
          put_job-IsSound job.spec.id (requeued job) (enqueue (requeued job) c.queue) c
            (record {
              valid = refl;
              keyed = refl;
              bounded = omega (arith, ltb→lt job.retry_count job.max_retries e);
              unassigned = λ n. refl;
            })
            (enqueue-pending (requeued job) c.queue refl i.queue_pending) i)
      | inr e ↦ subst IsSound (sym (rw (e, recover_job) refl)) (
          advance_run_of-IsSound job.run_id _
            (exhausted-IsSound (c.dead_letters ++ dead_letter node_id now job ∷ []) job c s i))
    ]

recover_each-IsSound :
    (node_id now : ℕ) (jobs : List JobRecord) (c : Controller)
    → All (λ job. IsSoundJob job.spec.id job) jobs
    → IsSound c
    → IsSound (recover_each node_id now jobs c)
unfolding recover_each
recover_each-IsSound node_id now [] c s i = i
recover_each-IsSound node_id now (job ∷ jobs) c s i =
    recover_each-IsSound node_id now jobs (recover_job node_id now job c) s.1
      (recover_job-IsSound node_id now job c s.0 i)

recover_dead_node_jobs-IsSound :
    (node_id now : ℕ) (c : Controller) → IsSound c → IsSound (recover_dead_node_jobs node_id now c)
unfolding recover_dead_node_jobs
recover_dead_node_jobs-IsSound node_id now c i =
    recover_each-IsSound node_id now _ c
      (All-filter (λ job. IsSoundJob job.spec.id job) (is_in_flight node_id) (values c.jobs)
        (stored_sound c.jobs i.unique i.jobs_sound))
      i

pub put_node-IsSound :
    (node_id : ℕ) (profile : ComputeNodeProfile) (c : Controller)
    → IsSound c
    → IsSound (put_node node_id profile c)
put_node-IsSound node_id profile c i = record {
  jobs_sound = i.jobs_sound;
  unique = i.unique;
  queue_pending = i.queue_pending;
}

evaluate_node-IsSound :
    (now tu td node_id : ℕ) (profile : ComputeNodeProfile)
    (r : Controller × List ComputeNodeProfile)
    → IsSound r.0
    → IsSound (evaluate_node now tu td node_id profile r).0
unfolding evaluate_node
evaluate_node-IsSound now tu td node_id profile (c, dead_nodes) i =
    let elapsed = now - profile.last_heartbeat_at in
    let dead_profile : ComputeNodeProfile = mark_dead profile now in
    elim (Bool-cases (ltb td elapsed && is_alive profile.health_state)) [
      | inl e ↦ subst IsSound (sym (rw (e, evaluate_node) refl)) (
          put_node-IsSound node_id (mark_drained dead_profile now)
            (recover_dead_node_jobs node_id now (put_node node_id dead_profile c))
            (recover_dead_node_jobs-IsSound node_id now (put_node node_id dead_profile c)
              (put_node-IsSound node_id dead_profile c i)))
      | inr e ↦ elim (Bool-cases (ltb tu elapsed && is_healthy profile.health_state)) [
        | inl f ↦
            subst IsSound (sym (rw (e, f, evaluate_node) refl))
              (put_node-IsSound node_id (mark_unhealthy profile now) c i)
        | inr f ↦ subst IsSound (sym (rw (e, f, evaluate_node) refl)) i
      ]
    ]

pub evaluate_nodes-IsSound :
    (now tu td : ℕ) (nodes : Dict ComputeNodeProfile) (r : Controller × List ComputeNodeProfile)
    → IsSound r.0
    → IsSound (evaluate_nodes now tu td nodes r).0
unfolding evaluate_nodes
evaluate_nodes-IsSound now tu td [] r i = i
evaluate_nodes-IsSound now tu td ((node_id, profile) ∷ nodes) r i =
    evaluate_nodes-IsSound now tu td nodes _ (evaluate_node-IsSound now tu td node_id profile r i)
