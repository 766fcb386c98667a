-- ===== src/Lifecycle/Machine.antt =====
-- lifecycle.py: the transitions as a relation, and what they can reach.
use hexaqueue.Prelude.{ℕ, ◌≡◌, ◌↔◌, refl, inl, inr, Bool-cases, leb, ◌&&◌, ◌⊎◌, true, ◌≤◌, arith}
use hexaqueue.Lifecycle.{JobState, can_transition_job}

-- Sequences of transitions that the table permits.
pub data Reaches (s : JobState) : JobState → Type 0 where
  here : Reaches s s
  next : {t u : JobState} → Reaches s t → can_transition_job t u ≡ true → Reaches s u

pub Reaches-trans : {s t u : JobState} → Reaches s t → Reaches t u → Reaches s u
Reaches-trans r here = r
Reaches-trans r (next q h) = next (Reaches-trans r q) h

-- How far a job has come: submitted, in the queue or held back from it, running, cleaning up, done.
abbrev pub phase : JobState → ℕ
phase JobState.submitted = 0
phase JobState.running = 2
phase JobState.cleanup = 3
phase JobState.done = 4
phase _ = 1

step-phase : (t u : JobState) → can_transition_job t u ≡ true → phase t ≤ phase u
unfolding can_transition_job
step-phase t u h = ground arith

Reaches-phase : {s t : JobState} → Reaches s t → phase s ≤ phase t
Reaches-phase here = omega arith
Reaches-phase {s} (next {t} {u} r h) = omega (arith, Reaches-phase r, step-phase t u h)

pending-Reaches : (t : JobState) → 1 ≤ phase t → Reaches JobState.pending t
unfolding can_transition_job
pending-Reaches JobState.submitted h = absurd (omega arith)
pending-Reaches JobState.pending h = here
pending-Reaches JobState.cleanup h = next {t = JobState.running} (next here refl) refl
pending-Reaches _ h = next here refl

Reaches-pending : (s : JobState) → phase s ≤ 1 → Reaches s JobState.pending
unfolding can_transition_job
Reaches-pending JobState.pending h = here
Reaches-pending JobState.submitted h = next here refl
Reaches-pending JobState.blocked h = next here refl
Reaches-pending JobState.provisioning h = next here refl
Reaches-pending _ h = absurd (omega arith)

Reaches-later : (s t : JobState) → phase s ≤ phase t → Reaches s t
unfolding can_transition_job
Reaches-later JobState.submitted JobState.submitted h = here
Reaches-later JobState.running JobState.running h = here
Reaches-later JobState.running JobState.cleanup h = next here refl
Reaches-later JobState.running JobState.done h = next here refl
Reaches-later JobState.cleanup JobState.cleanup h = here
Reaches-later JobState.cleanup JobState.done h = next here refl
Reaches-later JobState.done JobState.done h = here
Reaches-later s t h = elim (Bool-cases (leb (phase s) 1 && leb 1 (phase t))) [
  | inl e ↦
      Reaches-trans (Reaches-pending s (ground (arith, e))) (pending-Reaches t (ground (arith, e)))
  | inr e ↦ absurd (ground (arith, e, h))
]

-- The transitions that the table permits lead from one state to another, in any number of steps, exactly
-- where the other is in no earlier phase; the phases are submitted, then blocked, pending and
-- provisioning together, then running, cleaning up and done. (The controller also changes states without
-- asking the table.)
pub Reaches_iff : (s t : JobState) → Reaches s t ↔ (phase s ≤ phase t)
Reaches_iff s t = (λ r. Reaches-phase r, λ h. Reaches-later s t h)

-- From each state the machine permits the step to done.
pub Reaches-done : (s : JobState) → Reaches s JobState.done
unfolding can_transition_job
Reaches-done JobState.done = here
Reaches-done _ = next here refl

-- A job only becomes running from the queue: from pending or from provisioning, or it was running.
pub enters_running :
    (s : JobState)
    → can_transition_job s JobState.running ≡ true
    → (s ≡ JobState.pending) ⊎ ((s ≡ JobState.provisioning) ⊎ (s ≡ JobState.running))
unfolding can_transition_job
enters_running s h = ground arith
