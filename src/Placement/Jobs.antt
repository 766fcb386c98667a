-- ===== src/Placement/Jobs.antt =====
-- node.py: the jobs of a node as jobs are assigned to it and released.
use hexaqueue.Prelude.{ℕ, ◌+◌, ◌≡◌, refl, false, List, [], ◌∷◌, arith}
use hexaqueue.Prelude.Lists.{length, member}
use hexaqueue.Placement.Node.{ComputeNodeProfile, set_add, set_remove, assign_job, release_job}

set_remove_absent : (x : ℕ) (xs : List ℕ) → member x xs ≡ false → set_remove x xs ≡ xs
unfolding set_remove
set_remove_absent x [] h = refl
set_remove_absent x (y ∷ ys) h = ground (arith, set_remove_absent x ys)

-- A job that is new to a node adds one to its load, and releasing it gives the node its jobs back.
pub release_job-assign_job :
    (n : ComputeNodeProfile) (job_id now later : ℕ)
    → member job_id n.active_job_ids ≡ false
    → (length (assign_job n job_id now).active_job_ids ≡ length n.active_job_ids + 1)
      × ((release_job (assign_job n job_id now) job_id later).active_job_ids ≡ n.active_job_ids)
unfolding assign_job release_job set_add set_remove
release_job-assign_job n job_id now later h =
    ground (arith, set_remove_absent job_id n.active_job_ids h)
