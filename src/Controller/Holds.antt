-- ===== src/Controller/Holds.antt =====
-- local.py, hold_job and release_job.
use hexaqueue.Prelude.{ℕ, ◌≡◌, refl, inr, true, some, arith, ◌==◌, if◌then◌else◌}
use hexaqueue.Prelude.Dict.{get, get-put, get-put_self}
use hexaqueue.Lifecycle.{JobState}
use hexaqueue.Controller.{
  Controller, JobRecord, StatusReason, with_state, in_state, enqueue, remove,
}
use hexaqueue.Controller.Runs.{put_job}
use hexaqueue.Controller.Jobs.{hold_job, release_job}

-- A pending job that is held and then released is pending again, without a reason, every other job
-- is as before, and the job, once or not at all in the queue before, stands at its end.
pub release-hold :
    (c : Controller) (job_id k : ℕ) (job : JobRecord)
    → get job_id c.jobs ≡ some job
    → in_state JobState.pending job ≡ true
    → (held : Controller) × (hold_job c job_id ≡ inr held)
      × (after : Controller) × (release_job held job_id ≡ inr after)
      × (get k after.jobs ≡ (
          if k == job_id
          then some (with_state job JobState.pending StatusReason.no_reason)
          else get k c.jobs))
      × (after.queue
          ≡ enqueue
              (with_state job JobState.pending StatusReason.no_reason)
              (remove job_id c.queue))
unfolding hold_job release_job
release-hold c job_id k job e p = (
  held,
  simp (e, p, hold_job) refl,
  after,
  rw (get-put_self job_id held_job c.jobs, release_job) refl,
  ground (arith, get-put job_id k released_job held.jobs, get-put job_id k held_job c.jobs),
  refl,
)
  where
    held_job : JobRecord
    held_job = with_state job JobState.blocked StatusReason.administratively_held

    held : Controller
    held = record (put_job job_id held_job c) { queue = remove job_id c.queue }

    released_job : JobRecord
    released_job = with_state held_job JobState.pending StatusReason.no_reason

    after : Controller
    after = record (put_job job_id released_job held) { queue = enqueue released_job held.queue }
