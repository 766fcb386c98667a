-- ===== src/Controller/Rounds.antt =====
-- local.py, _advance_dependents: what its passes and its loop keep, and when the loop ends.
use hexaqueue.Prelude.{
  ℕ, zero, suc, ◌+◌, ◌≤◌, ◌<◌, ◌≡◌, inl, inr, refl, sym, subst, ◌∙◌, true, false, Option, none,
  some, List, [], ◌∷◌, arith, Bool-cases, Bool,
}
use hexaqueue.Prelude.Members.{==_refl}
use hexaqueue.Prelude.Lists.{member, All}
use hexaqueue.Prelude.Dict.{Dict, get, put, get-put}
use hexaqueue.Lifecycle.{JobState, status_valid}
use hexaqueue.Dag.{Dependencies}
use hexaqueue.Controller.{JobRecord, with_state, StatusReason}
use hexaqueue.Controller.Advance.{Pass, advance_job, advance_pass, advance_loop}
use hexaqueue.Controller.Passes.{
  Advanced, Advanced-trans, Visit, idle, readied, stopped, advance_job-Visit, Visit-Advanced,
  advance_pass-idle, is_idle,
}
use hexaqueue.Controller.Settling.{
  waiting, flag, waiting_falls, waiting_drops, IsSynced, AreValid, Visit-IsSynced,
}

abbrev valid_at : Option JobRecord → Bool
valid_at none = true
valid_at (some j) = status_valid j.status

Advanced-AreValid :
    (jobs jobs' : Dict JobRecord)
    → ((k : ℕ) → Advanced (get k jobs) (get k jobs'))
    → AreValid jobs
    → AreValid jobs'
unfolding status_valid
Advanced-AreValid jobs jobs' h v k job e = elim (h k) [
  | inl same ↦ v k job (sym same ∙ e)
  | inr (old, was, s, inl now) ↦ valid_now job _ refl (sym now ∙ e)
  | inr (old, was, s, inr now) ↦ valid_now job _ refl (sym now ∙ e)
]
  where
    valid_now :
        (job new : JobRecord)
        → status_valid new.status ≡ true
        → some new ≡ some job
        → status_valid job.status ≡ true
    valid_now job new w e = subst (λ o. valid_at o ≡ true) e w

-- A visit uses up a submitted job when it raises the flag.
Visit-waiting :
    (dag : Dependencies) (ids : List ℕ) (j : ℕ) (p p' : Pass)
    → Visit dag j p p'
    → member j ids ≡ true
    → waiting ids p'.jobs + flag p'.changed ≤ waiting ids p.jobs + flag p.changed
Visit-waiting dag ids j p _ (idle h) m = omega arith
Visit-waiting dag ids j p _ (readied stored e s r) m = omega (
  arith,
  waiting_falls ids p.jobs
      (put j (with_state stored JobState.pending StatusReason.no_reason) p.jobs)
      λ k. Visit-Advanced dag j k p _ (readied stored e s r),
)
Visit-waiting dag ids j p _ (stopped stored e s b) m = ground (
  arith,
  waiting_drops ids j p.jobs
      (put j (with_state stored JobState.blocked StatusReason.upstream_failed) p.jobs)
      (λ k. Visit-Advanced dag j k p _ (stopped stored e s b)) m (rw e s)
      (rw
        (
          get-put j j (with_state stored JobState.blocked StatusReason.upstream_failed) p.jobs,
          ==_refl j,
        )
        refl),
)

-- What a pass, and the loop, keep: validity and the outcomes. A pass that blocks jobs leaves fewer of
-- them waiting.
pub record IsPassed (ids : List ℕ) (jobs : Dict JobRecord) (p' : Pass) : Type 0 where
  pub advanced : (k : ℕ) → Advanced (get k jobs) (get k p'.jobs)
  pub valid : AreValid p'.jobs
  pub synced : IsSynced ids p'

advance_pass-IsPassed :
    (dag : Dependencies) (ids some_ids : List ℕ) (p : Pass)
    → ((k : ℕ) → member k some_ids ≡ true → member k ids ≡ true)
    → AreValid p.jobs
    → IsSynced ids p
    → IsPassed ids p.jobs (advance_pass dag some_ids p)
      × (waiting ids (advance_pass dag some_ids p).jobs + flag (advance_pass dag some_ids p).changed
          ≤ waiting ids p.jobs + flag p.changed)
unfolding advance_pass
advance_pass-IsPassed dag ids [] p h v s =
    (record { advanced = λ k. inl refl; valid = v; synced = s }, omega arith)
advance_pass-IsPassed dag ids (j ∷ rest) p h v s =
    let next : Pass = advance_job dag j p in
    let visit : Visit dag j p next = advance_job-Visit dag j p in
    let m : member j ids ≡ true = h j (ground (arith, ==_refl j)) in
    let moved : ((k : ℕ) → Advanced (get k p.jobs) (get k next.jobs)) =
      λ k. Visit-Advanced dag j k p next visit in
    let (after, fewer) =
      advance_pass-IsPassed dag ids rest next (λ k n. h k (ground (arith, n)))
        (Advanced-AreValid p.jobs next.jobs moved v)
        (Visit-IsSynced dag ids j p next visit m v s) in
    (
      record {
        advanced =
            λ k. Advanced-trans (get k p.jobs) (get k next.jobs) _ (moved k) (after.advanced k);
        valid = after.valid;
        synced = after.synced;
      },
      omega (arith, fewer, Visit-waiting dag ids j p next visit m),
    )

-- With more fuel than submitted jobs, the last pass finds nothing to do.
pub advance_loop-IsPassed :
    (dag : Dependencies) (ids : List ℕ) (fuel : ℕ) (p : Pass)
    → waiting ids p.jobs < fuel
    → AreValid p.jobs
    → IsSynced ids p
    → let p' = advance_loop fuel dag ids p in
      IsPassed ids p.jobs p' × All (λ k. is_idle dag p'.outcomes k (get k p'.jobs) ≡ true) ids
unfolding advance_loop
advance_loop-IsPassed dag ids zero p h v s = absurd (omega (arith, h))
advance_loop-IsPassed dag ids (suc fuel) p h v s =
    let start : Pass = record p { changed = false } in
    let after : Pass = advance_pass dag ids start in
    let (passed, fewer) = advance_pass-IsPassed dag ids ids start (λ k n. n) v s in
    elim (Bool-cases after.changed) [
      | inl c ↦
          let (rest, quiet) =
            advance_loop-IsPassed dag ids fuel after (ground (arith, fewer, h, c)) passed.valid
              passed.synced in
          rw c (
            record {
              advanced = λ k.
                  Advanced-trans (get k p.jobs) (get k after.jobs) _ (passed.advanced k)
                    (rest.advanced k);
              valid = rest.valid;
              synced = rest.synced;
            },
            quiet,
          )
      | inr c ↦
          let (c', same, quiet) = advance_pass-idle dag ids start c in
          rw c (
            passed,
            subst (λ o. All (λ k. is_idle dag o k (get k after.jobs) ≡ true) ids) (sym same) quiet,
          )
    ]
