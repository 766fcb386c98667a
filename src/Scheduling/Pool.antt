-- ===== src/Scheduling/Pool.antt =====
-- scheduling.py, class ResourceSlotPool. Methods that mutate the pool return the new one.
use hexaqueue.Prelude.{ℕ, ◌-◌, Bool, true, false, Option, none, some, [], leb, if◌then◌else◌}
use hexaqueue.Prelude.Lists.{sum_by}
use hexaqueue.Prelude.Dict.{Dict, contains, put, del, values}
use hexaqueue.Job.{JobSpec, slots}

pub record ResourceSlotPool : Type 0 where
  pub total_slots : ℕ
  pub total_cpus : ℕ
  pub allocated_jobs : Dict JobSpec

-- `__init__`; `none` is the ValueError on a total that is not positive.
unfoldable pub make_pool : ℕ → Option ℕ → Option ResourceSlotPool
make_pool total_slots total_cpus =
    if leb total_slots 0
    then none
    else some (record {
      total_slots = total_slots;
      total_cpus = elim total_cpus [ none ↦ total_slots | some c ↦ c ];
      allocated_jobs = [];
    })

unfoldable pub used_slots : ResourceSlotPool → ℕ
used_slots p = sum_by slots (values p.allocated_jobs)

-- `max(0, total - used)` is the truncated difference.
unfoldable pub available_slots : ResourceSlotPool → ℕ
unfolding used_slots
available_slots p = p.total_slots - used_slots p

unfoldable pub can_fit : ResourceSlotPool → JobSpec → Bool
unfolding available_slots
can_fit p job = leb (slots job) (available_slots p)

unfoldable pub allocate : ResourceSlotPool → JobSpec → ResourceSlotPool × Bool
unfolding can_fit
allocate p job =
    if can_fit p job
    then (record p { allocated_jobs = put job.id job p.allocated_jobs }, true)
    else (p, false)

unfoldable pub release : ResourceSlotPool → ℕ → ResourceSlotPool × Bool
release p job_id =
    if contains job_id p.allocated_jobs
    then (record p { allocated_jobs = del job_id p.allocated_jobs }, true)
    else (p, false)

unfoldable pub is_allocated : ResourceSlotPool → ℕ → Bool
is_allocated p job_id = contains job_id p.allocated_jobs
