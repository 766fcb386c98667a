-- ===== src/Controller/Legality.antt =====
-- local.py beside lifecycle.py: the calls that keep to the state machine of jobs.
use mathlib.Core.Option.{some_inj}
use hexaqueue.Prelude.{
  ℕ, ◌≡◌, refl, sym, subst, ◌∙◌, ==_iff, inl, inr, ◌⊎◌, true, some, ◌==◌, arith, Bool-cases,
}
use hexaqueue.Prelude.Dict.{Dict, get, put, get-put}
use hexaqueue.Lifecycle.{JobState, same_state, can_transition_job}
use hexaqueue.Controller.{JobRecord, StatusReason, with_state, in_state}
use hexaqueue.Controller.Passes.{Advanced}

pub stays : (s : JobState) → can_transition_job s s ≡ true
unfolding can_transition_job
stays s = ground arith

pub ends : (s : JobState) → can_transition_job s JobState.done ≡ true
unfolding can_transition_job
ends s = ground arith

from_submitted :
    (s : JobState) → can_transition_job s JobState.submitted ≡ true → s ≡ JobState.submitted
unfolding can_transition_job
from_submitted s h = ground arith

-- Each stored job is still stored, in its state or in one that the machine permits next.
abbrev pub KeepsTo : Dict JobRecord → Dict JobRecord → Type 0
KeepsTo before after =
    (k : ℕ) (job : JobRecord)
    → get k before ≡ some job
    → (job' : JobRecord) × (get k after ≡ some job')
      × (can_transition_job job.status.state job'.status.state ≡ true)

pub KeepsTo-refl : (jobs : Dict JobRecord) → KeepsTo jobs jobs
KeepsTo-refl jobs k job e = (job, e, stays job.status.state)

pub put-KeepsTo :
    (jobs : Dict JobRecord) (j : ℕ) (current new : JobRecord)
    → get j jobs ≡ some current
    → can_transition_job current.status.state new.status.state ≡ true
    → KeepsTo jobs (put j new jobs)
put-KeepsTo jobs j current new e r k job f = elim (Bool-cases (k == j)) [
  | inl same ↦
      let this : current ≡ job = some_inj.0 (sym e ∙ (rw ((==_iff k j).0 same) at f)) in
      (
        new,
        rw (get-put j k new jobs, same) refl,
        subst (λ (x : JobRecord). can_transition_job x.status.state new.status.state ≡ true) this r,
      )
  | inr other ↦ (job, rw (get-put j k new jobs, other) f, stays job.status.state)
]

-- Each stored job is still stored, in its state or done.
abbrev pub EndsIn : Dict JobRecord → Dict JobRecord → Type 0
EndsIn before after =
    (k : ℕ) (job : JobRecord)
    → get k before ≡ some job
    → (job' : JobRecord) × (get k after ≡ some job')
      × ((job'.status.state ≡ job.status.state) ⊎ (job'.status.state ≡ JobState.done))

pub EndsIn-refl : (jobs : Dict JobRecord) → EndsIn jobs jobs
EndsIn-refl jobs k job e = (job, e, inl refl)

pub EndsIn-trans : (a b c : Dict JobRecord) → EndsIn a b → EndsIn b c → EndsIn a c
EndsIn-trans a b c h g k job e =
    let (mid, f, first) = h k job e in
    let (last, f', second) = g k mid f in
    (
      last,
      f',
      elim second [
        | inl same ↦ elim first [ inl t ↦ inl (same ∙ t) | inr t ↦ inr (same ∙ t) ]
        | inr over ↦ inr over
      ],
    )

pub put-EndsIn :
    (jobs : Dict JobRecord) (j : ℕ) (new : JobRecord)
    → new.status.state ≡ JobState.done
    → EndsIn jobs (put j new jobs)
put-EndsIn jobs j new over k job f = elim (Bool-cases (k == j)) [
  | inl same ↦ (new, rw (get-put j k new jobs, same) refl, inr over)
  | inr other ↦ (job, rw (get-put j k new jobs, other) f, inl refl)
]

pub EndsIn-KeepsTo : (a b : Dict JobRecord) → EndsIn a b → KeepsTo a b
EndsIn-KeepsTo a b h k job e =
    let (job', f, how) = h k job e in
    (
      job',
      f,
      elim how [
        | inl same ↦
            subst (λ s. can_transition_job job.status.state s ≡ true) (sym same)
              (stays job.status.state)
        | inr over ↦
            subst (λ s. can_transition_job job.status.state s ≡ true) (sym over)
              (ends job.status.state)
      ],
    )

state_of_submitted :
    (s : JobState) → same_state s JobState.submitted ≡ true → s ≡ JobState.submitted
state_of_submitted s h = ground (arith, h)

-- What is permitted next stays so when the dependents of a run are settled.
pub Advanced-KeepsTo :
    (before mid after : Dict JobRecord)
    → KeepsTo before mid
    → ((k : ℕ) → Advanced (get k mid) (get k after))
    → KeepsTo before after
unfolding can_transition_job
Advanced-KeepsTo before mid after h a k job e =
    let (job', f, r) = h k job e in
    elim (a k) [
      | inl same ↦ (job', same ∙ f, r)
      | inr (old, was, s, now) ↦
          let this : old ≡ job' = some_inj.0 (sym was ∙ f) in
          let mid_state : job'.status.state ≡ JobState.submitted =
            state_of_submitted job'.status.state
              (subst (λ j. in_state JobState.submitted j ≡ true) this s) in
          let from : job.status.state ≡ JobState.submitted =
            from_submitted job.status.state
              (subst (λ t. can_transition_job job.status.state t ≡ true) mid_state r) in
          elim now [
            | inl n ↦ (
              with_state old JobState.pending StatusReason.no_reason,
              n,
              subst (λ t. can_transition_job t JobState.pending ≡ true) (sym from) refl,
            )
            | inr n ↦ (
              with_state old JobState.blocked StatusReason.upstream_failed,
              n,
              subst (λ t. can_transition_job t JobState.blocked ≡ true) (sym from) refl,
            )
          ]
    ]
