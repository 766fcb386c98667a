-- ===== src/Controller/Settling.antt =====
-- local.py, _advance_dependents: the loop over the passes.
use hexaqueue.Prelude.{
  ℕ, ◌+◌, ◌≤◌, ◌≡◌, inl, inr, refl, ap, ◌∙◌, ==_iff, true, false, Option, none, some, List, [], ◌∷◌,
  ◌==◌, arith, if◌then◌else◌, Bool-cases, Bool, Option-cases,
}
use hexaqueue.Prelude.Lists.{sum_by, member}
use hexaqueue.Prelude.Dict.{Dict, get, put, get-put}
use hexaqueue.Prelude.Members.{==_refl}
use hexaqueue.Lifecycle.{JobState, TerminalOutcome, status_valid}
use hexaqueue.Dag.{Dependencies, Outcomes}
use hexaqueue.Controller.{JobRecord, with_state, in_state, StatusReason}
use hexaqueue.Controller.Advance.{Pass, outcome_now, collect_outcomes}
use hexaqueue.Controller.Passes.{Advanced, Visit, idle, readied, stopped, submitted_at}

-- How many of these jobs are submitted.
abbrev pub waiting : List ℕ → Dict JobRecord → ℕ
waiting ids jobs = sum_by (λ k. if submitted_at (get k jobs) then 1 else 0) ids

abbrev pub flag : Bool → ℕ
flag b = if b then 1 else 0

Advanced-submitted :
    (before after : Option JobRecord)
    → Advanced before after
    → submitted_at after ≡ true
    → submitted_at before ≡ true
Advanced-submitted before after (inl e) h = ground (arith, e, h)
Advanced-submitted before after (inr (old, e, s, g)) h = ground (arith, e, s)

pub waiting_falls :
    (ids : List ℕ) (jobs jobs' : Dict JobRecord)
    → ((k : ℕ) → Advanced (get k jobs) (get k jobs'))
    → waiting ids jobs' ≤ waiting ids jobs
waiting_falls [] jobs jobs' h = omega arith
waiting_falls (k ∷ ids) jobs jobs' h =
    ground
      (arith, waiting_falls ids jobs jobs' h, Advanced-submitted (get k jobs) (get k jobs') (h k))

pub waiting_drops :
    (ids : List ℕ) (j : ℕ) (jobs jobs' : Dict JobRecord)
    → ((k : ℕ) → Advanced (get k jobs) (get k jobs'))
    → member j ids ≡ true
    → submitted_at (get j jobs) ≡ true
    → submitted_at (get j jobs') ≡ false
    → waiting ids jobs' + 1 ≤ waiting ids jobs
waiting_drops [] j jobs jobs' h m s t = cc m
waiting_drops (k ∷ ids) j jobs jobs' h m s t = elim (Bool-cases (j == k)) [
  | inl e ↦ ground (arith, e, (==_iff j k).0 e, s, t, waiting_falls ids jobs jobs' h)
  | inr e ↦ ground (
    arith,
    e,
    m,
    waiting_drops ids j jobs jobs' h,
    s,
    t,
    Advanced-submitted (get k jobs) (get k jobs') (h k),
  )
]

-- The outcomes of the loop are those of the jobs now.
abbrev pub recorded : Option JobRecord → Option (Option TerminalOutcome)
recorded none = none
recorded (some job) = some (outcome_now job)

abbrev pub IsSynced : List ℕ → Pass → Type 0
IsSynced ids p =
    (k : ℕ) → get k p.outcomes ≡ (if member k ids then recorded (get k p.jobs) else none)

abbrev pub AreValid : Dict JobRecord → Type 0
AreValid jobs = (k : ℕ) (job : JobRecord) → get k jobs ≡ some job → status_valid job.status ≡ true

abbrev pub recorded_or :
    Option JobRecord → Option (Option TerminalOutcome) → Option (Option TerminalOutcome)
recorded_or none o = o
recorded_or (some job) o = some (outcome_now job)

recorded_or-put :
    (jobs : Dict JobRecord) (o : Outcomes) (j k : ℕ)
    → (k == j) ≡ true
    → recorded_or
        (get k jobs)
        (get k (elim (get j jobs) [ none ↦ o | some job ↦ put j (outcome_now job) o ]))
      ≡ recorded_or (get k jobs) (get k o)
recorded_or-put jobs o j k h = elim (Option-cases (get j jobs)) [
  | inl e ↦ rw e refl
  | inr (job, e) ↦ let found : get k jobs ≡ some job = rw ((==_iff k j).0 h) e in rw found refl
]

other_put :
    (jobs : Dict JobRecord) (o : Outcomes) (j k : ℕ)
    → (k == j) ≡ false
    → get k (elim (get j jobs) [ none ↦ o | some job ↦ put j (outcome_now job) o ]) ≡ get k o
other_put jobs o j k h = elim (Option-cases (get j jobs)) [
  | inl e ↦ rw e refl
  | inr (job, e) ↦ rw (e, get-put j k (outcome_now job) o, h) refl
]

self_put :
    (jobs : Dict JobRecord) (o : Outcomes) (j k : ℕ)
    → (k == j) ≡ true
    → get k (elim (get j jobs) [ none ↦ o | some job ↦ put j (outcome_now job) o ])
      ≡ recorded_or (get k jobs) (get k o)
self_put jobs o j k h = elim (Option-cases (get j jobs)) [
  | inl e ↦ let found : get k jobs ≡ none = rw ((==_iff k j).0 h) e in rw (e, found) refl
  | inr (job, e) ↦
      let found : get k jobs ≡ some job = rw ((==_iff k j).0 h) e in
      rw (e, found, get-put j k (outcome_now job) o, h) refl
]

pub collect_outcomes-get :
    (ids : List ℕ) (jobs : Dict JobRecord) (o : Outcomes) (k : ℕ)
    → get k (collect_outcomes ids jobs o)
      ≡ (if member k ids then recorded_or (get k jobs) (get k o) else get k o)
unfolding collect_outcomes
collect_outcomes-get [] jobs o k = refl
collect_outcomes-get (j ∷ ids) jobs o k = ground (
  arith,
  collect_outcomes-get ids jobs
      (elim (get j jobs) [ none ↦ o | some job ↦ put j (outcome_now job) o ]) k,
  recorded_or-put jobs o j k,
  other_put jobs o j k,
  self_put jobs o j k,
)

submitted_outcome :
    (job : JobRecord)
    → status_valid job.status ≡ true
    → in_state JobState.submitted job ≡ true
    → outcome_now job ≡ none
unfolding outcome_now status_valid
submitted_outcome job v s = ground (arith, v, s)

pub Visit-IsSynced :
    (dag : Dependencies) (ids : List ℕ) (j : ℕ) (p p' : Pass)
    → Visit dag j p p'
    → member j ids ≡ true
    → AreValid p.jobs
    → IsSynced ids p
    → IsSynced ids p'
unfolding outcome_now
Visit-IsSynced dag ids j p _ (idle h) m v s k = s k
Visit-IsSynced dag ids j p _ (readied stored e u r) m v s k = elim (Bool-cases (k == j)) [
  | inl h ↦
      let now : get k p.outcomes ≡ some none =
        s k ∙ rw ((==_iff k j).0 h, m, e) (ap some (submitted_outcome stored (v j stored e) u)) in
      rw
        (
          now,
          (==_iff k j).0 h,
          m,
          get-put j j (with_state stored JobState.pending StatusReason.no_reason) p.jobs,
          ==_refl j,
        )
        refl
  | inr h ↦
      rw (get-put j k (with_state stored JobState.pending StatusReason.no_reason) p.jobs, h) (s k)
]
Visit-IsSynced dag ids j p _ (stopped stored e u b) m v s k = elim (Bool-cases (k == j)) [
  | inl h ↦
      rw
        (
          (==_iff k j).0 h,
          m,
          get-put j j (with_state stored JobState.blocked StatusReason.upstream_failed) p.jobs,
          get-put j j (some TerminalOutcome.failed) p.outcomes,
          ==_refl j,
        )
        refl
  | inr h ↦
      rw
        (
          get-put j k (with_state stored JobState.blocked StatusReason.upstream_failed) p.jobs,
          get-put j k (some TerminalOutcome.failed) p.outcomes,
          h,
        )
        (s k)
]
