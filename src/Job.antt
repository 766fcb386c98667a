-- ===== src/Job.antt =====
-- packages/hexaqueue_core/src/hexaqueue_core/domain/job.py: the fields of a job that the scheduler
-- and the placement engine read. Identifiers (jobs, users, collateral) are numbers, since the code
-- only compares them; a time is a whole number of clock ticks, and `priority_bonus` a fixed-point
-- number of the scale of Scheduling/Priority.antt.
use hexaqueue.Prelude.{ℕ, List, Bool, max}
use hexaqueue.Prelude.Int.{ℤ}

pub record JobSpec : Type 0 where
  pub id : ℕ
  pub user : ℕ
  pub cpus : ℕ
  pub collateral_ids : List ℕ
  pub priority : ℤ
  pub checkpointable : Bool
  pub priority_bonus : ℤ
  pub created_at : ℕ

-- `max(1, job.resources.cpus)`, the slots that a job takes.
abbrev pub slots : JobSpec → ℕ
slots j = max 1 j.cpus
