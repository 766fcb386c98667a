-- ===== src/Controller/Passes.antt =====
-- local.py, _advance_dependents: one pass, job by job.
use hexaqueue.Prelude.{
  ℕ, ◌≡◌, ◌⊎◌, inl, inr, refl, sym, ap, subst, ◌∙◌, ==_iff, Bool, true, false, not, ◌&&◌, ◌||◌,
  Option, none, some, List, [], ◌∷◌, ◌++◌, ◌==◌, arith, Bool-cases, Option-cases,
}
use hexaqueue.Prelude.Lists.{All}
use hexaqueue.Prelude.Dict.{Dict, get, put, get-put}
use hexaqueue.Prelude.Members.{==_refl}
use hexaqueue.Lifecycle.{JobState, TerminalOutcome}
use hexaqueue.Dag.{Dependencies, Outcomes, is_job_ready, is_job_blocked}
use hexaqueue.Controller.{JobRecord, with_state, in_state, StatusReason, enqueue}
use hexaqueue.Controller.Advance.{Pass, advance_stored, advance_job, advance_pass}

-- What a stored job becomes: it stays, or it was submitted and is pending or blocked.
abbrev pub Advanced : Option JobRecord → Option JobRecord → Type 0
Advanced before after =
    (after ≡ before)
    ⊎ ((old : JobRecord) × (before ≡ some old)
        × (in_state JobState.submitted old ≡ true)
        × ((after ≡ some (with_state old JobState.pending StatusReason.no_reason))
            ⊎ (after ≡ some (with_state old JobState.blocked StatusReason.upstream_failed))))

abbrev pub submitted_at : Option JobRecord → Bool
submitted_at none = false
submitted_at (some j) = in_state JobState.submitted j

-- A pass has nothing to do for the job.
abbrev pub is_idle : Dependencies → Outcomes → ℕ → Option JobRecord → Bool
is_idle dag outcomes j stored =
    not (submitted_at stored)
    || (not (is_job_ready dag j outcomes) && not (is_job_blocked dag j outcomes))

pub Advanced-trans : (a b c : Option JobRecord) → Advanced a b → Advanced b c → Advanced a c
Advanced-trans a b c (inl e) (inl f) = inl (f ∙ e)
Advanced-trans a b c (inl e) (inr (old, f, s, g)) = inr (old, sym e ∙ f, s, g)
Advanced-trans a b c (inr (old, e, s, g)) (inl f) = inr (old, e, s, ground (arith, f, g))
Advanced-trans a b c (inr (old, e, s, inl g)) (inr (old', f, s', g')) =
    cc (ap submitted_at g, ap submitted_at f, s')
Advanced-trans a b c (inr (old, e, s, inr g)) (inr (old', f, s', g')) =
    cc (ap submitted_at g, ap submitted_at f, s')

-- A job that is not submitted stays as it is.
pub Advanced-same :
    (before after : Option JobRecord)
    → Advanced before after
    → submitted_at before ≡ false
    → after ≡ before
Advanced-same before after (inl e) h = e
Advanced-same before after (inr (old, e, s, g)) h = cc (ap submitted_at e, s, h)

-- What a pass does to a job: nothing, or it finds enough parents, or a parent that blocks it.
pub data Visit (dag : Dependencies) (j : ℕ) (p : Pass) : Pass → Type 0 where
  idle : is_idle dag p.outcomes j (get j p.jobs) ≡ true → Visit dag j p p
  readied :
      (stored : JobRecord)
      → get j p.jobs ≡ some stored
      → in_state JobState.submitted stored ≡ true
      → is_job_ready dag j p.outcomes ≡ true
      → Visit dag j p (record p {
        jobs = put j (with_state stored JobState.pending StatusReason.no_reason) p.jobs;
        queue = p.queue ++ with_state stored JobState.pending StatusReason.no_reason ∷ [];
      })
  stopped :
      (stored : JobRecord)
      → get j p.jobs ≡ some stored
      → in_state JobState.submitted stored ≡ true
      → is_job_blocked dag j p.outcomes ≡ true
      → Visit dag j p (record p {
        jobs = put j (with_state stored JobState.blocked StatusReason.upstream_failed) p.jobs;
        outcomes = put j (some TerminalOutcome.failed) p.outcomes;
        changed = true;
      })

advance_stored-Visit :
    (dag : Dependencies) (j : ℕ) (stored : JobRecord) (p : Pass)
    → get j p.jobs ≡ some stored
    → Visit dag j p (advance_stored dag j stored p)
unfolding advance_stored enqueue
advance_stored-Visit dag j stored p e = elim (Bool-cases (in_state JobState.submitted stored)) [
  | inr s ↦ subst (Visit dag j p) (sym (rw (s, advance_stored) refl)) (idle (ground (arith, e, s)))
  | inl s ↦ elim (Bool-cases (is_job_ready dag j p.outcomes)) [
    | inl r ↦ subst (Visit dag j p) (sym (rw (s, r, advance_stored) refl)) (readied stored e s r)
    | inr r ↦ elim (Bool-cases (is_job_blocked dag j p.outcomes)) [
      | inl b ↦
          subst (Visit dag j p) (sym (rw (s, r, b, advance_stored) refl)) (stopped stored e s b)
      | inr b ↦
          subst (Visit dag j p) (sym (rw (s, r, b, advance_stored) refl))
            (idle (ground (arith, e, r, b)))
    ]
  ]
]

pub advance_job-Visit :
    (dag : Dependencies) (j : ℕ) (p : Pass) → Visit dag j p (advance_job dag j p)
unfolding advance_job
advance_job-Visit dag j p = elim (Option-cases (get j p.jobs)) [
  | inl e ↦ subst (Visit dag j p) (sym (rw (e, advance_job) refl)) (idle (rw e refl))
  | inr (stored, e) ↦
      subst (Visit dag j p) (sym (rw (e, advance_job) refl)) (advance_stored-Visit dag j stored p e)
]

put-Advanced :
    (j k : ℕ) (old new : JobRecord) (jobs : Dict JobRecord)
    → get j jobs ≡ some old
    → Advanced (some old) (some new)
    → Advanced (get k jobs) (get k (put j new jobs))
put-Advanced j k old new jobs e a = rw (get-put j k new jobs) (elim (Bool-cases (k == j)) [
  | inl same ↦ rw (same, (==_iff k j).0 same, e) a
  | inr other ↦ rw other (inl refl)
])

pub Visit-Advanced :
    (dag : Dependencies) (j k : ℕ) (p p' : Pass)
    → Visit dag j p p'
    → Advanced (get k p.jobs) (get k p'.jobs)
Visit-Advanced dag j k p _ (idle h) = inl refl
Visit-Advanced dag j k p _ (readied stored e s r) =
    put-Advanced j k stored _ p.jobs e (inr (stored, refl, s, inl refl))
Visit-Advanced dag j k p _ (stopped stored e s b) =
    put-Advanced j k stored _ p.jobs e (inr (stored, refl, s, inr refl))

pub advance_pass-Advanced :
    (dag : Dependencies) (k : ℕ) (ids : List ℕ) (p : Pass)
    → Advanced (get k p.jobs) (get k (advance_pass dag ids p).jobs)
unfolding advance_pass
advance_pass-Advanced dag k [] p = inl refl
advance_pass-Advanced dag k (j ∷ ids) p =
    Advanced-trans (get k p.jobs) (get k (advance_job dag j p).jobs) _
      (Visit-Advanced dag j k p _ (advance_job-Visit dag j p))
      (advance_pass-Advanced dag k ids (advance_job dag j p))

-- A job that is idle stays so.
Advanced-idle :
    (dag : Dependencies) (o : Outcomes) (k : ℕ) (before after : Option JobRecord)
    → Advanced before after
    → is_idle dag o k before ≡ true
    → is_idle dag o k after ≡ true
Advanced-idle dag o k before after (inl e) h = rw e h
Advanced-idle dag o k before after (inr (old, e, s, inl g)) h = rw g refl
Advanced-idle dag o k before after (inr (old, e, s, inr g)) h = rw g refl

Visit-changed :
    (dag : Dependencies) (j : ℕ) (p p' : Pass)
    → Visit dag j p p'
    → p'.changed ≡ false
    → (p.changed ≡ false)
      × (p'.outcomes ≡ p.outcomes)
      × (is_idle dag p.outcomes j (get j p'.jobs) ≡ true)
Visit-changed dag j p _ (idle h) c = (c, refl, h)
Visit-changed dag j p _ (readied stored e s r) c =
    let queued = with_state stored JobState.pending StatusReason.no_reason in
    (c, refl, rw (get-put j j queued p.jobs, ==_refl j) refl)
Visit-changed dag j p _ (stopped stored e s b) c = cc c

-- A pass that blocks no job leaves all its jobs idle.
pub advance_pass-idle :
    (dag : Dependencies) (ids : List ℕ) (p : Pass)
    → (advance_pass dag ids p).changed ≡ false
    → (p.changed ≡ false)
      × ((advance_pass dag ids p).outcomes ≡ p.outcomes)
      × All (λ k. is_idle dag p.outcomes k (get k (advance_pass dag ids p).jobs) ≡ true) ids
unfolding advance_pass
advance_pass-idle dag [] p c = (c, refl, tt)
advance_pass-idle dag (j ∷ ids) p c =
    let next : Pass = advance_job dag j p in
    let (c', o', others) = advance_pass-idle dag ids next c in
    let (c'', o'', this) = Visit-changed dag j p next (advance_job-Visit dag j p) c' in
    (
      c'',
      o' ∙ o'',
      (
        Advanced-idle dag p.outcomes j (get j next.jobs) _ (advance_pass-Advanced dag j ids next)
            this,
        subst (λ o. All (λ k. is_idle dag o k (get k (advance_pass dag ids next).jobs) ≡ true) ids)
            o'' others,
      ),
    )
