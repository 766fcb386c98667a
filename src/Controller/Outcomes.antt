-- ===== src/Controller/Outcomes.antt =====
-- local.py, update_job_outcome and _settle_or_release_job_budget: what a reported outcome changes.
use hexaqueue.Prelude.{
  ℕ, ◌≡◌, ◌≢◌, refl, sym, ap, subst, ◌∙◌, inr, true, false, Option, none, some, arith,
  if◌then◌else◌, Bool,
}
use hexaqueue.Prelude.Dict.{
  Dict, get, get-put_self, get-put_ne, Unique, del, get-del_self, get-del_ne,
}
use hexaqueue.Prelude.Int.{ℤ}
use hexaqueue.Lifecycle.{TerminalOutcome}
use hexaqueue.Dag.{Dependencies}
use hexaqueue.Budget.Ledger.{Ledger}
use hexaqueue.Controller.{
  Controller, JobRecord, RunSubmission, StatusReason, with_outcome, CostModel,
}
use hexaqueue.Controller.Passes.{Advanced, Advanced-same, submitted_at}
use hexaqueue.Controller.Settled.{IsSettled, advance_dependents-IsSettled}
use hexaqueue.Controller.Budgets.{
  actual_credits, settle_held, settle_reserved, settle_or_release_job_budget,
}
use hexaqueue.Controller.Runs.{
  job_ids, put_job, advance_run, advance_run_of, record_outcome, update_job_outcome,
}
use hexaqueue.Controller.Settling.{AreValid}
use hexaqueue.Controller.Sound.{IsSound, with_outcome-IsSoundJob}
use hexaqueue.Controller.Invariant.{settle-IsSound, settle-jobs, put_job-IsSound}

settle_reserved-runs :
    (model : Option CostModel) (now : ℕ) (c : Controller) (job_id : ℕ) (outcome : TerminalOutcome)
    (walltime : Option ℕ) (consumed : Option ℤ) (l : Option Ledger) (res : Option ℕ)
    → let c' = settle_reserved model now c job_id outcome walltime consumed l res in
      (c'.runs ≡ c.runs) × (c'.dag_engines ≡ c.dag_engines)
unfolding settle_reserved
settle_reserved-runs model now c job_id outcome walltime consumed none _ = (refl, refl)
settle_reserved-runs model now c job_id outcome walltime consumed (some l) none = (refl, refl)
settle_reserved-runs model now c job_id outcome walltime consumed (some l) (some res) = (refl, refl)

advance_run_of-found :
    (run_id : ℕ) (c : Controller) (submission : RunSubmission) (dag : Dependencies)
    → get run_id c.runs ≡ some submission
    → get run_id c.dag_engines ≡ some dag
    → advance_run_of run_id c ≡ advance_run submission dag c
unfolding advance_run_of
advance_run_of-found run_id c submission dag e f = rw (e, f, advance_run_of) refl

-- In a sound controller, the outcome of a job whose run has a graph is recorded, and the job is done
-- with it. Then no submitted job of the run is ready or blocked by the outcomes as they are, and any
-- other job either stays as it was or was submitted and is now pending or blocked.
pub update_job_outcome-settles :
    (model : Option CostModel) (now : ℕ) (c : Controller) (job_id : ℕ) (current : JobRecord)
    (submission : RunSubmission) (dag : Dependencies) (outcome : TerminalOutcome)
    (reason walltime : Option ℕ) (consumed : Option ℤ)
    → IsSound c
    → get job_id c.jobs ≡ some current
    → get current.run_id c.runs ≡ some submission
    → get current.run_id c.dag_engines ≡ some dag
    → (c' : Controller) × (update_job_outcome model now c job_id outcome reason walltime consumed
        ≡ inr c')
      × (get job_id c'.jobs ≡ some (with_outcome current outcome (StatusReason.reported reason)))
      × IsSettled dag (job_ids submission) c'.jobs
      × ((k : ℕ) → k ≢ job_id → Advanced (get k c.jobs) (get k c'.jobs))
unfolding update_job_outcome record_outcome settle_or_release_job_budget advance_run
update_job_outcome-settles model now c job_id current submission dag outcome reason walltime
      consumed i e r d =
    (
      advance_run submission dag paid,
      rw (e, update_job_outcome)
          (ap inr (
            advance_run_of-found current.run_id paid submission dag
              (ap (get current.run_id) same.0 ∙ r) (ap (get current.run_id) same.1 ∙ d))),
      Advanced-same _ _ (advanced.2 job_id) (ap submitted_at recorded) ∙ recorded,
      advanced.0,
      λ k n. subst (λ o. Advanced o (get k after)) (others k n) (advanced.2 k),
    )
  where
    done_job : JobRecord
    done_job = with_outcome current outcome (StatusReason.reported reason)

    marked : Controller
    marked = put_job job_id done_job c

    paid : Controller
    paid = settle_or_release_job_budget model now marked job_id outcome walltime consumed

    same : (paid.runs ≡ c.runs) × (paid.dag_engines ≡ c.dag_engines)
    same =
        settle_reserved-runs model now marked job_id outcome walltime consumed marked.budget_port
          (get job_id marked.job_reservations)

    jobs_same : paid.jobs ≡ marked.jobs
    jobs_same = (settle-jobs model now marked job_id outcome walltime consumed).0

    sound : IsSound paid
    sound = settle-IsSound model now marked job_id outcome walltime consumed (
        put_job-IsSound job_id done_job c.queue c
          (with_outcome-IsSoundJob job_id current outcome (StatusReason.reported reason)
            (i.jobs_sound job_id current e))
          i.queue_pending i)

    recorded : get job_id paid.jobs ≡ some done_job
    recorded = ap (get job_id) jobs_same ∙ get-put_self job_id done_job c.jobs

    others : (k : ℕ) → k ≢ job_id → get k paid.jobs ≡ get k c.jobs
    others k n = ap (get k) jobs_same ∙ get-put_ne job_id k done_job c.jobs n

    after : Dict JobRecord
    after = (advance_run submission dag paid).jobs

    advanced :
        IsSettled dag (job_ids submission) after
        × AreValid after
        × ((k : ℕ) → Advanced (get k paid.jobs) (get k after))
    advanced =
        advance_dependents-IsSettled dag (job_ids submission) paid.jobs paid.queue
          (λ k job f. (sound.jobs_sound k job f).valid)

settle_held-forgets :
    (l : Ledger) (now res_id : ℕ) (outcome : TerminalOutcome) (walltime : Option ℕ) (credits : ℤ)
    → outcome ≢ TerminalOutcome.preempted
    → (settle_held l now res_id outcome walltime credits).1 ≡ true
unfolding settle_held
settle_held-forgets l now res_id outcome walltime credits h = ground (arith, h)

settle_held-keeps :
    (l : Ledger) (now res_id : ℕ) (outcome : TerminalOutcome) (walltime : Option ℕ) (credits : ℤ)
    → outcome ≡ TerminalOutcome.preempted
    → (settle_held l now res_id outcome walltime credits).1 ≡ false
unfolding settle_held
settle_held-keeps l now res_id outcome walltime credits h = rw h refl

-- The reservations of a call, for a job with this reservation.
abbrev pub Forgets : ℕ → TerminalOutcome → Dict ℕ → Dict ℕ → Type 0
Forgets job_id outcome before after =
    (outcome ≢ TerminalOutcome.preempted → get job_id after ≡ none)
    × (outcome ≡ TerminalOutcome.preempted → after ≡ before)
    × ((k : ℕ) → k ≢ job_id → get k after ≡ get k before)

forgotten-Forgets :
    (job_id : ℕ) (outcome : TerminalOutcome) (before : Dict ℕ) (forgotten : Bool)
    → Unique before
    → (outcome ≢ TerminalOutcome.preempted → forgotten ≡ true)
    → (outcome ≡ TerminalOutcome.preempted → forgotten ≡ false)
    → Forgets job_id outcome before (if forgotten then del job_id before else before)
forgotten-Forgets job_id outcome before true u h g =
    (λ n. get-del_self job_id before u, λ n. cc (g n), λ k n. get-del_ne job_id k before n)
forgotten-Forgets job_id outcome before false u h g = (λ n. cc (h n), λ n. refl, λ k n. refl)

settle_reserved-Forgets :
    (model : Option CostModel) (now : ℕ) (c : Controller) (job_id : ℕ) (l : Ledger)
    (outcome : TerminalOutcome) (walltime : Option ℕ) (consumed : Option ℤ) (res : Option ℕ)
    → get job_id c.job_reservations ≡ res
    → Unique c.job_reservations
    → let c' = settle_reserved model now c job_id outcome walltime consumed (some l) res in
      Forgets job_id outcome c.job_reservations c'.job_reservations
unfolding settle_reserved
settle_reserved-Forgets model now c job_id l outcome walltime consumed none e u =
    (λ n. e, λ n. refl, λ k n. refl)
settle_reserved-Forgets model now c job_id l outcome walltime consumed (some res) e u =
    let credits : ℤ = actual_credits model (get job_id c.jobs) walltime consumed in
    forgotten-Forgets job_id outcome c.job_reservations
      (settle_held l now res outcome walltime credits).1 u
      (settle_held-forgets l now res outcome walltime credits)
      (settle_held-keeps l now res outcome walltime credits)

-- With a budget port and reservations that stand once for each job, settling forgets the reservation
-- of the job unless the outcome is preempted, in which case all reservations stay; those of other
-- jobs always stay.
pub settle-Forgets :
    (model : Option CostModel) (now : ℕ) (c : Controller) (job_id : ℕ) (l : Ledger)
    (outcome : TerminalOutcome) (walltime : Option ℕ) (consumed : Option ℤ)
    → c.budget_port ≡ some l
    → Unique c.job_reservations
    → let c' = settle_or_release_job_budget model now c job_id outcome walltime consumed in
      Forgets job_id outcome c.job_reservations c'.job_reservations
unfolding settle_or_release_job_budget
settle-Forgets model now c job_id l outcome walltime consumed p u =
    subst
      (λ port.
        Forgets job_id outcome c.job_reservations
          (settle_reserved model now c job_id outcome walltime consumed port
            (get job_id c.job_reservations)).job_reservations)
      (sym p)
      (settle_reserved-Forgets model now c job_id l outcome walltime consumed
        (get job_id c.job_reservations) refl u)
