-- ===== src/Controller/Queued.antt =====
-- local.py: the handlers of dead nodes and of dependents add to the queue and to the dead letters, and take
-- nothing out of them.
use hexaqueue.Prelude.{
  ℕ, zero, suc, ◌≤◌, ◌<◌, ◌≡◌, ◌⊎◌, refl, ap, subst, sym, ◌∙◌, inl, inr, true, false, List, [], ◌∷◌,
  ◌++◌, arith, Bool-cases, on_if, on_option, ltb,
}
use hexaqueue.Prelude.Lists.{All, length}
use hexaqueue.Prelude.Members.{In}
use hexaqueue.Prelude.Dict.{get}
use hexaqueue.Dag.{Dependencies}
use hexaqueue.Controller.{Controller, JobRecord, RunSubmission, enqueue}
use hexaqueue.Controller.Advance.{
  Pass, advance_job, advance_pass, advance_loop, advance_dependents, collect_outcomes,
}
use hexaqueue.Controller.Passes.{Visit, idle, readied, stopped, advance_job-Visit}
use hexaqueue.Controller.Runs.{job_ids, advance_run, advance_run_of, put_job}
use hexaqueue.Controller.Nodes.{requeued, exhausted, dead_letter, recover_job, recover_each}

-- The second list is the first with more entries behind.
abbrev pub Extends : {A : Type 0} → List A → List A → Type 0
Extends {A} xs ys = (more : List A) × (ys ≡ xs ++ more)

append_nil : {A : Type 0} (xs : List A) → xs ≡ xs ++ []
append_nil [] = refl
append_nil (x ∷ xs) = rw (sym (append_nil xs)) refl

pub Extends-refl : {A : Type 0} (xs : List A) → Extends xs xs
Extends-refl xs = ([], append_nil xs)

append_assoc : {A : Type 0} (xs ys zs : List A) → (xs ++ ys) ++ zs ≡ xs ++ (ys ++ zs)
append_assoc [] ys zs = refl
append_assoc (x ∷ xs) ys zs = rw (append_assoc xs ys zs) refl

pub Extends-trans : {A : Type 0} (xs ys zs : List A) → Extends xs ys → Extends ys zs → Extends xs zs
Extends-trans xs ys zs (m, e) (n, f) = (m ++ n, f ∙ ap (λ l. l ++ n) e ∙ append_assoc xs m n)

In-append : {A : Type 0} (x : A) (xs ys : List A) → In x xs → In x (xs ++ ys)
In-append x [] ys i = absurd i
In-append x (y ∷ xs) ys (inl e) = inl e
In-append x (y ∷ xs) ys (inr i) = inr (In-append x xs ys i)

pub In-Extends : {A : Type 0} (x : A) (xs ys : List A) → Extends xs ys → In x xs → In x ys
In-Extends x xs ys (more, e) i = subst (In x) (sym e) (In-append x xs more i)

pub In-last : {A : Type 0} (x : A) (xs : List A) → In x (xs ++ x ∷ [])
In-last x [] = inl refl
In-last x (y ∷ xs) = inr (In-last x xs)

Visit-Extends :
    (dag : Dependencies) (j : ℕ) (p p' : Pass) → Visit dag j p p' → Extends p.queue p'.queue
unfolding enqueue
Visit-Extends dag j p _ (idle h) = Extends-refl p.queue
Visit-Extends dag j p _ (readied stored e s r) = (_, refl)
Visit-Extends dag j p _ (stopped stored e s b) = Extends-refl p.queue

pass-Extends :
    (dag : Dependencies) (ids : List ℕ) (p : Pass) → Extends p.queue (advance_pass dag ids p).queue
unfolding advance_pass
pass-Extends dag [] p = Extends-refl p.queue
pass-Extends dag (j ∷ ids) p =
    Extends-trans p.queue (advance_job dag j p).queue _
      (Visit-Extends dag j p (advance_job dag j p) (advance_job-Visit dag j p))
      (pass-Extends dag ids (advance_job dag j p))

loop-Extends :
    (fuel : ℕ) (dag : Dependencies) (ids : List ℕ) (p : Pass)
    → Extends p.queue (advance_loop fuel dag ids p).queue
unfolding advance_loop
loop-Extends zero dag ids p = Extends-refl p.queue
loop-Extends (suc fuel) dag ids p =
    let after : Pass = advance_pass dag ids (record p { changed = false }) in
    let first : Extends p.queue after.queue = pass-Extends dag ids (record p { changed = false }) in
    on_if (λ (r : Pass). Extends p.queue r.queue) after.changed (advance_loop fuel dag ids after)
      after (Extends-trans p.queue after.queue _ first (loop-Extends fuel dag ids after)) first

-- The queue and the dead letters have grown at their ends.
pub record HasGrown (c c' : Controller) : Type 0 where
  pub queue_grown : Extends c.queue c'.queue
  pub letters_grown : Extends c.dead_letters c'.dead_letters

pub HasGrown-refl : (c : Controller) → HasGrown c c
HasGrown-refl c = record {
  queue_grown = Extends-refl c.queue;
  letters_grown = Extends-refl c.dead_letters;
}

pub HasGrown-trans : (c d e : Controller) → HasGrown c d → HasGrown d e → HasGrown c e
HasGrown-trans c d e g h = record {
  queue_grown = Extends-trans c.queue d.queue e.queue g.queue_grown h.queue_grown;
  letters_grown =
      Extends-trans c.dead_letters d.dead_letters e.dead_letters g.letters_grown h.letters_grown;
}

advance_run-HasGrown :
    (submission : RunSubmission) (dag : Dependencies) (c : Controller)
    → HasGrown c (advance_run submission dag c)
unfolding advance_run advance_dependents
advance_run-HasGrown submission dag c = record {
  queue_grown = loop-Extends (suc (length (job_ids submission))) dag (job_ids submission) (record {
    jobs = c.jobs;
    queue = c.queue;
    outcomes = collect_outcomes (job_ids submission) c.jobs [];
    changed = true;
  });
  letters_grown = Extends-refl c.dead_letters;
}

advance_run_of-HasGrown : (run_id : ℕ) (c : Controller) → HasGrown c (advance_run_of run_id c)
unfolding advance_run_of
advance_run_of-HasGrown run_id c =
    on_option (HasGrown c) (get run_id c.runs) c _ (HasGrown-refl c) λ submission e.
      on_option (HasGrown c) (get run_id c.dag_engines) c _ (HasGrown-refl c)
        λ dag f. advance_run-HasGrown submission dag c

-- What is left of a job that was in flight: it waits in the queue, as it is now stored, or a dead letter
-- says that its retries are used up.
abbrev pub IsHandled : ℕ → ℕ → JobRecord → Controller → Type 0
IsHandled node_id now job c =
    ((job.retry_count < job.max_retries) × In (requeued job) c.queue)
    ⊎ ((job.max_retries ≤ job.retry_count) × In (dead_letter node_id now job) c.dead_letters)

IsHandled-HasGrown :
    (node_id now : ℕ) (job : JobRecord) (c c' : Controller)
    → HasGrown c c'
    → IsHandled node_id now job c
    → IsHandled node_id now job c'
IsHandled-HasGrown node_id now job c c' g (inl (less, i)) =
    inl (less, In-Extends (requeued job) c.queue c'.queue g.queue_grown i)
IsHandled-HasGrown node_id now job c c' g (inr (over, i)) = inr (
  over,
  In-Extends (dead_letter node_id now job) c.dead_letters c'.dead_letters g.letters_grown i,
)

recover_job-IsHandled :
    (node_id now : ℕ) (job : JobRecord) (c : Controller)
    → HasGrown c (recover_job node_id now job c)
      × IsHandled node_id now job (recover_job node_id now job c)
unfolding recover_job enqueue
recover_job-IsHandled node_id now job c = elim (Bool-cases (ltb job.retry_count job.max_retries)) [
  | inl less ↦
      rw (less, recover_job)
        (
          record {
            queue_grown = (requeued job ∷ [], refl);
            letters_grown = Extends-refl c.dead_letters;
          },
          inl (ground (arith, less), In-last (requeued job) c.queue),
        )
  | inr over ↦
      let failed : Controller = record (put_job job.spec.id (exhausted job) c) {
        dead_letters = c.dead_letters ++ dead_letter node_id now job ∷ [];
      } in
      let here : HasGrown c failed = record {
        queue_grown = Extends-refl c.queue;
        letters_grown = (dead_letter node_id now job ∷ [], refl);
      } in
      let later = advance_run_of-HasGrown job.run_id failed in
      rw (over, recover_job)
        (
          HasGrown-trans c failed _ here later,
          IsHandled-HasGrown node_id now job failed _ later
              (inr (ground (arith, over), In-last (dead_letter node_id now job) c.dead_letters)),
        )
]

pub recover_each-IsHandled :
    (node_id now : ℕ) (jobs : List JobRecord) (c : Controller)
    → HasGrown c (recover_each node_id now jobs c)
      × All (λ job. IsHandled node_id now job (recover_each node_id now jobs c)) jobs
unfolding recover_each
recover_each-IsHandled node_id now [] c = (HasGrown-refl c, tt)
recover_each-IsHandled node_id now (job ∷ jobs) c =
    let (grown, handled) = recover_job-IsHandled node_id now job c in
    let (later, rest) = recover_each-IsHandled node_id now jobs (recover_job node_id now job c) in
    (
      HasGrown-trans c (recover_job node_id now job c) _ grown later,
      (IsHandled-HasGrown node_id now job (recover_job node_id now job c) _ later handled, rest),
    )
