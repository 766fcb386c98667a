-- ===== src/Freetier/Caps.antt =====
-- adapters/freetier/governor.py: the caps over any sequence of its calls, and a job that is released.
use hexaqueue.Prelude.{
  ℕ, ◌+◌, ◌≤◌, ◌≡◌, ◌⊎◌, inl, inr, Option, some, List, [], ◌∷◌, if◌then◌else◌, ltb, ◌==◌, get_or,
  refl, sym, on_if, ap, ◌∙◌, ==_iff, subst, not, Bool-cases, arith,
}
use hexaqueue.Prelude.Dict.{Dict, get, put, values, sum_by-put-le, sum_by-del-le, get-put}
use hexaqueue.Prelude.Lists.{sum_by}
use hexaqueue.Freetier.{
  CspProvider, provider_index, FreeTierJob, CspFreeTierProfile, LimitExceeded, cpus_of, ram_of,
}
use hexaqueue.Freetier.Mesh.{
  MultiCspFreeTierGovernor, make_governor, MultiCspPlacementCandidate, find_eligible_provider,
  allocate_job, release_first, release_job,
}
use hexaqueue.Freetier.Room.{HasRoomAt, Fits}
use hexaqueue.Freetier.Finding.{FindsRoom, find_eligible_provider-FindsRoom}

-- The jobs that are allocated on the provider of an index.
abbrev pub jobs_at : ℕ → Dict (Dict FreeTierJob) → Dict FreeTierJob
jobs_at k allocations = get_or (get k allocations) []

-- No provider holds more than its caps.
abbrev pub IsWithinCaps : MultiCspFreeTierGovernor → Type 0
IsWithinCaps g =
    (k : ℕ) (profile : CspFreeTierProfile)
    → get k g.profiles ≡ some profile
    → (cpus_of (values (jobs_at k g.allocations)) ≤ profile.max_cpus)
      × (ram_of (values (jobs_at k g.allocations)) ≤ profile.max_ram_mb)

pub data Call : Type 0 where
  allocating : FreeTierJob → Option CspProvider → Call
  releasing : ℕ → Call

-- A call that raises leaves the governor as it was.
abbrev pub kept :
    MultiCspFreeTierGovernor
    → LimitExceeded ⊎ (CspProvider × MultiCspFreeTierGovernor)
    → MultiCspFreeTierGovernor
kept g (inl e) = g
kept g (inr (p, g')) = g'

unfoldable pub step : MultiCspFreeTierGovernor → Call → MultiCspFreeTierGovernor
step g (Call.allocating job preferred) = kept g (allocate_job g job preferred)
step g (Call.releasing job_id) = release_job g job_id

unfoldable pub run : MultiCspFreeTierGovernor → List Call → MultiCspFreeTierGovernor
unfolding step
run g [] = g
run g (call ∷ calls) = run (step g call) calls

sum_by-release_first :
    (f : FreeTierJob → ℕ) (job_id k : ℕ) (allocations : Dict (Dict FreeTierJob))
    → sum_by f (values (jobs_at k (release_first job_id allocations)))
      ≤ sum_by f (values (jobs_at k allocations))
unfolding release_first
sum_by-release_first f job_id k [] = omega arith
sum_by-release_first f job_id k ((p, jobs) ∷ rest) =
    ground (arith, sum_by-del-le f job_id jobs, sum_by-release_first f job_id k rest)

release_job-IsWithinCaps :
    (g : MultiCspFreeTierGovernor) (job_id : ℕ)
    → IsWithinCaps g
    → IsWithinCaps (release_job g job_id)
unfolding release_job
release_job-IsWithinCaps g job_id w k profile e = ground (
  arith,
  w k profile e,
  sum_by-release_first (λ j. j.cpus) job_id k g.allocations,
  sum_by-release_first (λ j. j.ram_mb) job_id k g.allocations,
)

make_governor-empty :
    (k : ℕ) (profiles : Dict CspFreeTierProfile)
    → values (jobs_at k (make_governor profiles).allocations) ≡ []
unfolding make_governor
make_governor-empty k [] = refl
make_governor-empty k ((p, profile) ∷ profiles) = ground (arith, make_governor-empty k profiles)

make_governor-IsWithinCaps :
    (profiles : Dict CspFreeTierProfile) → IsWithinCaps (make_governor profiles)
make_governor-IsWithinCaps profiles k profile e =
    rw (make_governor-empty k profiles) (omega arith, omega arith)

-- What the totals of a provider gain when a job is put on one.
sum_by-allocated :
    (f : FreeTierJob → ℕ) (job : FreeTierJob) (i k : ℕ) (allocations : Dict (Dict FreeTierJob))
    → sum_by f (values (jobs_at k (put i (put job.id job (jobs_at i allocations)) allocations))) ≤ (
        if k == i
        then sum_by f (values (jobs_at i allocations)) + f job
        else sum_by f (values (jobs_at k allocations)))
sum_by-allocated f job i k allocations = ground (
  arith,
  get-put i k (put job.id job (jobs_at i allocations)) allocations,
  sum_by-put-le f job.id job (jobs_at i allocations),
)

put-IsWithinCaps :
    (g : MultiCspFreeTierGovernor) (job : FreeTierJob) (i : ℕ)
    → HasRoomAt g job i
    → IsWithinCaps g
    → IsWithinCaps
        (record g { allocations = put i (put job.id job (jobs_at i g.allocations)) g.allocations })
put-IsWithinCaps g job i (profile, found, fits) w k other e = elim (Bool-cases (k == i)) [
  | inl same ↦
      let same_profile =
        ap (λ o. get_or o profile)
          (sym found ∙ (subst (λ j. get j g.profiles ≡ some other) ((==_iff k i).0 same) e)) in
      let s = subst (λ q. Fits q (values (jobs_at i g.allocations)) job) same_profile fits in
      ground (
        arith,
        s.0,
        s.1,
        sum_by-allocated (λ j. j.cpus) job i k g.allocations,
        sum_by-allocated (λ j. j.ram_mb) job i k g.allocations,
      )
  | inr different ↦ ground (
    arith,
    w k other e,
    sum_by-allocated (λ j. j.cpus) job i k g.allocations,
    sum_by-allocated (λ j. j.ram_mb) job i k g.allocations,
  )
]

-- What a call of `allocate_job` gives: nothing changes, or the job is put where there is room.
abbrev pub IsAllocated :
    MultiCspFreeTierGovernor
    → FreeTierJob
    → LimitExceeded ⊎ (CspProvider × MultiCspFreeTierGovernor)
    → Type 0
IsAllocated g job (inl e) = Unit
IsAllocated g job (inr (p, g')) =
    HasRoomAt g job (provider_index p)
    × (g' ≡ record g {
      allocations =
          put (provider_index p) (put job.id job (jobs_at (provider_index p) g.allocations))
            g.allocations;
    })

answer-IsAllocated :
    (g : MultiCspFreeTierGovernor) (job : FreeTierJob) (preferred : Option CspProvider)
    (c : MultiCspPlacementCandidate)
    → FindsRoom g job preferred c
    → IsAllocated g job (
        if ltb 0 job.gpus
        then inl LimitExceeded.gpus_requested
        else if not c.is_eligible
        then inl LimitExceeded.mesh_exhausted
        else inr (
          c.provider,
          record g {
            allocations =
                put
                  (provider_index c.provider)
                  (put job.id job (jobs_at (provider_index c.provider) g.allocations))
                  g.allocations;
          },
        ))
answer-IsAllocated g job preferred c (inl (e, z, room)) = rw (e, z) (room, refl)
answer-IsAllocated g job preferred c (inr (e, full)) = rw e (
    on_if (IsAllocated g job) (ltb 0 job.gpus) (inl LimitExceeded.gpus_requested)
      (inl LimitExceeded.mesh_exhausted) tt tt)

pub allocate_job-IsAllocated :
    (g : MultiCspFreeTierGovernor) (job : FreeTierJob) (preferred : Option CspProvider)
    → IsAllocated g job (allocate_job g job preferred)
unfolding allocate_job
allocate_job-IsAllocated g job preferred =
    answer-IsAllocated g job preferred (find_eligible_provider g job preferred)
      (find_eligible_provider-FindsRoom g job preferred)

kept-IsWithinCaps :
    (g : MultiCspFreeTierGovernor) (job : FreeTierJob)
    (answer : LimitExceeded ⊎ (CspProvider × MultiCspFreeTierGovernor))
    → IsAllocated g job answer
    → IsWithinCaps g
    → IsWithinCaps (kept g answer)
kept-IsWithinCaps g job (inl e) a w = w
kept-IsWithinCaps g job (inr (p, g')) (room, e) w =
    subst IsWithinCaps (sym e) (put-IsWithinCaps g job (provider_index p) room w)

step-IsWithinCaps :
    (g : MultiCspFreeTierGovernor) (call : Call) → IsWithinCaps g → IsWithinCaps (step g call)
unfolding step
step-IsWithinCaps g (Call.releasing job_id) w = release_job-IsWithinCaps g job_id w
step-IsWithinCaps g (Call.allocating job preferred) w =
    kept-IsWithinCaps g job (allocate_job g job preferred)
      (allocate_job-IsAllocated g job preferred) w

run_from-IsWithinCaps :
    (g : MultiCspFreeTierGovernor) (calls : List Call) → IsWithinCaps g → IsWithinCaps (run g calls)
unfolding run
run_from-IsWithinCaps g [] w = w
run_from-IsWithinCaps g (call ∷ calls) w =
    run_from-IsWithinCaps (step g call) calls (step-IsWithinCaps g call w)

-- After any sequence of allocations and releases, granted or refused, from a governor that holds
-- nothing, no registered provider holds more CPUs or more memory than its caps.
pub run-IsWithinCaps :
    (profiles : Dict CspFreeTierProfile) (calls : List Call)
    → IsWithinCaps (run (make_governor profiles) calls)
run-IsWithinCaps profiles calls =
    run_from-IsWithinCaps (make_governor profiles) calls (make_governor-IsWithinCaps profiles)
