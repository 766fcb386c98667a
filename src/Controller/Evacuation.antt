-- ===== src/Controller/Evacuation.antt =====
-- local.py, _recover_dead_node_jobs: what becomes of each job.
use mathlib.Core.Option.{some_inj}
use hexaqueue.Prelude.{
  ℕ, ◌≡◌, ◌≢◌, refl, ap, subst, ◌∙◌, ==_iff, inl, inr, true, false, none, some, List, [], ◌∷◌, ◌++◌,
  ◌==◌, arith, if◌then◌else◌, Bool-cases, Bool, ltb, map,
}
use hexaqueue.Prelude.Members.{==_refl}
use hexaqueue.Prelude.Lists.{All, filter, member, Distinct}
use hexaqueue.Prelude.Dict.{Dict, get, put, get-put_self, get-put_ne, Unique, values}
use hexaqueue.Lifecycle.{JobState}
use hexaqueue.Controller.{Controller, JobRecord, in_state}
use hexaqueue.Controller.Passes.{Advanced, Advanced-trans, Advanced-same, submitted_at}
use hexaqueue.Controller.Nodes.{requeued, exhausted, dead_letter, recover_job, recover_each}
use hexaqueue.Controller.Sound.{IsSoundJob, AreSound, IsSound, advance_run_of-Advanced}
use hexaqueue.Controller.Recovery.{exhausted-IsSound, recover_job-IsSound}

abbrev pub ids_of : List JobRecord → List ℕ
ids_of = map (λ j. j.spec.id)

-- A job in flight is queued again or, with its retries used up, fails.
abbrev pub recovered : JobRecord → JobRecord
recovered job = if ltb job.retry_count job.max_retries then requeued job else exhausted job

recovered-unsubmitted : (job : JobRecord) → in_state JobState.submitted (recovered job) ≡ false
recovered-unsubmitted job = elim (Bool-cases (ltb job.retry_count job.max_retries)) [
  | inl e ↦ rw e refl
  | inr e ↦ rw e refl
]

recover_job-Advanced :
    (node_id now : ℕ) (job : JobRecord) (c : Controller) (k : ℕ)
    → IsSoundJob job.spec.id job
    → IsSound c
    → Advanced
        (get k (put job.spec.id (recovered job) c.jobs))
        (get k (recover_job node_id now job c).jobs)
unfolding recover_job
recover_job-Advanced node_id now job c k s i =
    elim (Bool-cases (ltb job.retry_count job.max_retries)) [
      | inl e ↦ rw (e, recover_job) (inl refl)
      | inr e ↦
          rw (e, recover_job)
            (advance_run_of-Advanced job.run_id _
              (exhausted-IsSound (c.dead_letters ++ dead_letter node_id now job ∷ []) job c s i) k)
    ]

-- Every other job.
pub recover_each-others :
    (node_id now : ℕ) (jobs : List JobRecord) (c : Controller) (k : ℕ)
    → All (λ job. IsSoundJob job.spec.id job) jobs
    → IsSound c
    → member k (ids_of jobs) ≡ false
    → Advanced (get k c.jobs) (get k (recover_each node_id now jobs c).jobs)
unfolding recover_each
recover_each-others node_id now [] c k s i m = inl refl
recover_each-others node_id now (job ∷ jobs) c k s i m =
    let other : k ≢ job.spec.id = ground (arith, m) in
    Advanced-trans (get k c.jobs) (get k (recover_job node_id now job c).jobs) _
      (subst (λ o. Advanced o (get k (recover_job node_id now job c).jobs))
        (get-put_ne job.spec.id k (recovered job) c.jobs other)
        (recover_job-Advanced node_id now job c k s.0 i))
      (recover_each-others node_id now jobs (recover_job node_id now job c) k s.1
        (recover_job-IsSound node_id now job c s.0 i) (ground (arith, m)))

pub recover_each-recovered :
    (node_id now : ℕ) (jobs : List JobRecord) (c : Controller)
    → All (λ job. IsSoundJob job.spec.id job) jobs
    → IsSound c
    → Distinct (ids_of jobs)
    → All
        (λ job. get job.spec.id (recover_each node_id now jobs c).jobs ≡ some (recovered job))
        jobs
unfolding recover_each
recover_each-recovered node_id now [] c s i d = tt
recover_each-recovered node_id now (job ∷ jobs) c s i d =
    let c' : Controller = recover_job node_id now job c in
    let sound : IsSound c' = recover_job-IsSound node_id now job c s.0 i in
    let now_put : get job.spec.id c'.jobs ≡ some (recovered job) =
      Advanced-same _ _ (recover_job-Advanced node_id now job c job.spec.id s.0 i) (
        ap submitted_at (get-put_self job.spec.id (recovered job) c.jobs)
        ∙ recovered-unsubmitted job)
      ∙ get-put_self job.spec.id (recovered job) c.jobs in
    (
      Advanced-same _ _ (recover_each-others node_id now jobs c' job.spec.id s.1 sound d.0)
            (ap submitted_at now_put ∙ recovered-unsubmitted job)
          ∙ now_put,
      recover_each-recovered node_id now jobs c' s.1 sound d.1,
    )

module _ (p : JobRecord → Bool) where
  abbrev pub chosen : Dict JobRecord → List JobRecord
  chosen d = filter p (values d)

  abbrev pub AreKeyed : Dict JobRecord → Type 0
  AreKeyed = All (λ e. e.1.spec.id ≡ e.0)

  chosen_absent :
      (d : Dict JobRecord) (k : ℕ)
      → AreKeyed d
      → get k d ≡ none
      → member k (ids_of (chosen d)) ≡ false
  chosen_absent [] k h e = refl
  chosen_absent ((j, v) ∷ d) k h e = elim (Bool-cases (p v)) [
    | inl t ↦ rw t (ground (arith, h.0, e, chosen_absent d k h.1))
    | inr t ↦ rw t (ground (arith, h.0, e, chosen_absent d k h.1))
  ]

  pub chosen_not :
      (d : Dict JobRecord) (k : ℕ) (job : JobRecord)
      → AreKeyed d
      → Unique d
      → get k d ≡ some job
      → p job ≡ false
      → member k (ids_of (chosen d)) ≡ false
  chosen_not [] k job h u e f = refl
  chosen_not ((j, v) ∷ d) k job h u e f = elim (Bool-cases (k == j)) [
    | inl same ↦
        let here : v ≡ job = some_inj.0 (rw same at e) in
        rw (ap p here ∙ f) (chosen_absent d k h.1 (rw ((==_iff k j).0 same) u.0))
    | inr other ↦ elim (Bool-cases (p v)) [
      | inl t ↦ rw t (ground (arith, h.0, other, chosen_not d k job h.1 u.1 (rw other at e) f))
      | inr t ↦ rw t (chosen_not d k job h.1 u.1 (rw other at e) f)
    ]
  ]

  pub chosen-Distinct : (d : Dict JobRecord) → AreKeyed d → Unique d → Distinct (ids_of (chosen d))
  chosen-Distinct [] h u = tt
  chosen-Distinct ((j, v) ∷ d) h u = elim (Bool-cases (p v)) [
    | inl t ↦ rw t (rw h.0 (chosen_absent d j h.1 u.0), chosen-Distinct d h.1 u.1)
    | inr t ↦ rw t (chosen-Distinct d h.1 u.1)
  ]

  pub chosen-All :
      (P : JobRecord → Type 0) (d : Dict JobRecord) (k : ℕ) (job : JobRecord)
      → All P (chosen d)
      → get k d ≡ some job
      → p job ≡ true
      → P job
  chosen-All P [] k job h e t = cc e
  chosen-All P ((j, v) ∷ d) k job h e t = elim (Bool-cases (k == j)) [
    | inl same ↦
        let here : v ≡ job = some_inj.0 (rw same at e) in subst P here ((rw (ap p here ∙ t) at h).0)
    | inr other ↦ elim (Bool-cases (p v)) [
      | inl f ↦ chosen-All P d k job (rw f at h).1 (rw other at e) t
      | inr f ↦ chosen-All P d k job (rw f at h) (rw other at e) t
    ]
  ]

pub stored_keyed : (jobs : Dict JobRecord) → Unique jobs → AreSound jobs → AreKeyed (λ j. true) jobs
stored_keyed [] u s = tt
stored_keyed ((k, job) ∷ jobs) u s = (
  (s k job (rw (==_refl k) refl)).keyed,
  stored_keyed jobs u.1 λ j other e. s j other (ground (arith, e, u.0)),
)
