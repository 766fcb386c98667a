-- ===== src/Leases/Sessions.antt =====
-- lease_coordinator.py: a session from its enqueueing on, under any calls of workers and the watchdog.
use hexaqueue.Prelude.{
  ℕ, suc, ap, sym, subst, refl, map, is_some, some, true, ◌≡◌, ◌≢◌, Bool, false, Option, none, List,
  [], ◌∷◌, arith, ◌==◌, if◌then◌else◌,
}
use hexaqueue.Prelude.Lists.{length, sum_by, sum_by-append, All}
use hexaqueue.Prelude.Dict.{get, get-put_self, get-put_ne}
use hexaqueue.Leases.Model.{
  WorkerRegistration, SliceTaskDescriptor, SliceReportPayload, TestSliceDispatch,
}
use hexaqueue.Leases.Reports.{read_outcomes}
use hexaqueue.Leases.Coordinator.{
  SliceLeaseCoordinator, register_worker, record_heartbeat, enqueue_tasks, enqueue_session_slices,
  make_task, lease_slice, report_slice_outcome, expired_ids, reclaim_expired_leases,
}
use hexaqueue.Leases.Accounted.{weight, outstanding, IsAccounted}
use hexaqueue.Leases.Accounting.{
  register_worker-IsAccounted, record_heartbeat-IsAccounted, lease_slice-IsAccounted,
  report_slice_outcome-IsAccounted, reclaim_all-IsAccounted,
}

-- What is enqueued for a session, with what the ports return.
pub record Submission : Type 0 where
  pub session : ℕ
  pub slices : List TestSliceDispatch
  pub collateral : Option ℕ
  pub download : ℕ → Option ℕ
  pub upload : ℕ → Option ℕ
  pub sources : Option (List ℕ)
  pub container : Bool
  pub image : Option ℕ

unfoldable pub submit : SliceLeaseCoordinator → ℕ → Submission → SliceLeaseCoordinator
submit c now x =
    enqueue_session_slices c now x.session x.slices x.collateral x.download x.upload x.sources
      x.container x.image

-- A call that changes the coordinator, with the clock.
pub data Call : Type 0 where
  registers : WorkerRegistration → ℕ → Call
  beats : (worker now : ℕ) → Option (List ℕ) → Call
  submits : ℕ → Submission → Call
  leases : (worker lease_id now : ℕ) → Call
  reports : SliceReportPayload → Call
  reclaims : ℕ → Call

unfoldable pub step : SliceLeaseCoordinator → Call → SliceLeaseCoordinator
step c (registers reg now) = register_worker c reg now
step c (beats worker now ids) = (record_heartbeat c worker now ids).0
step c (submits now x) = submit c now x
step c (leases worker lease_id now) = (lease_slice c worker lease_id now).0
step c (reports report) = (report_slice_outcome c report).0
step c (reclaims now) = (reclaim_expired_leases c now).0

unfoldable pub run : SliceLeaseCoordinator → List Call → SliceLeaseCoordinator
run c [] = c
run c (x ∷ xs) = run (step c x) xs

-- The slices that a submission puts into the queue.
abbrev pub made_by : ℕ → Submission → List SliceTaskDescriptor
made_by now x =
    map
      (make_task now x.session (length x.slices) x.collateral
        (elim x.collateral [ none ↦ none | some cid ↦ x.download cid ]) x.upload x.sources
        x.container x.image)
      x.slices

-- A new lease has a new identifier, the session `s` is not enqueued again, and the entries of a report fit
-- the fields of a test's record.
abbrev pub IsFresh : ℕ → SliceLeaseCoordinator → Call → Type 0
IsFresh s c (submits now x) = x.session ≢ s
IsFresh s c (leases worker lease_id now) = get lease_id c.active_leases ≡ none
IsFresh s c (reports report) = is_some (read_outcomes report report.outcomes) ≡ true
IsFresh s c _ = Unit

abbrev pub AllFresh : ℕ → SliceLeaseCoordinator → List Call → Type 0
AllFresh s c [] = Unit
AllFresh s c (x ∷ xs) = IsFresh s c x × AllFresh s (step c x) xs

-- No slice of the session waits or is leased.
abbrev pub IsAbsent : ℕ → SliceLeaseCoordinator → Type 0
IsAbsent s c = (f : SliceTaskDescriptor → ℕ) → outstanding s f c ≡ 0

abbrev AreOf : ℕ → List SliceTaskDescriptor → Type 0
AreOf s = All (λ t. t.session_id ≡ s)

weights_of :
    (s session : ℕ) (f : SliceTaskDescriptor → ℕ) (tasks : List SliceTaskDescriptor)
    → AreOf session tasks
    → sum_by (weight s f) tasks ≡ (if session == s then sum_by f tasks else 0)
weights_of s session f [] h = ground arith
weights_of s session f (t ∷ tasks) h = ground (arith, h.0, weights_of s session f tasks h.1)

own_weights :
    (s : ℕ) (f : SliceTaskDescriptor → ℕ) (tasks : List SliceTaskDescriptor)
    → AreOf s tasks
    → sum_by (weight s f) tasks ≡ sum_by f tasks
own_weights s f tasks h = ground (arith, weights_of s s f tasks h)

other_weights :
    (s session : ℕ) (f : SliceTaskDescriptor → ℕ) (tasks : List SliceTaskDescriptor)
    → session ≢ s
    → AreOf session tasks
    → sum_by (weight s f) tasks ≡ 0
other_weights s session f tasks other h = ground (arith, weights_of s session f tasks h)

enqueue_other :
    (s session total : ℕ) (made : List SliceTaskDescriptor) (c : SliceLeaseCoordinator)
    (tasks : List SliceTaskDescriptor)
    → session ≢ s
    → AreOf session tasks
    → IsAccounted s made c
    → IsAccounted s made (enqueue_tasks c session total tasks)
unfolding enqueue_tasks
enqueue_other s session total made c tasks other all h =
    let apart : s ≢ session = λ e. other (sym e) in
    record {
      finished = h.finished;
      accounted = λ f. omega (
        arith,
        h.accounted f,
        other_weights s session f tasks other all,
        sum_by-append (weight s f) c.pending_tasks tasks,
      );
      numbered = rw (get-put_ne session s [] c.session_reports apart) h.numbered;
      totalled = rw (get-put_ne session s total c.session_total_slices apart) h.totalled;
      signalled = rw (get-put_ne session s false c.session_events apart) h.signalled;
    }

enqueue_own :
    (s : ℕ) (c : SliceLeaseCoordinator) (tasks : List SliceTaskDescriptor)
    → AreOf s tasks
    → IsAbsent s c
    → IsAccounted s tasks (enqueue_tasks c s (length tasks) tasks)
unfolding enqueue_tasks
enqueue_own s c tasks all absent = record {
  finished = [];
  accounted = λ f. omega (
    arith,
    absent f,
    own_weights s f tasks all,
    sum_by-append (weight s f) c.pending_tasks tasks,
  );
  numbered = rw (get-put_self s [] c.session_reports) refl;
  totalled = rw (get-put_self s (length tasks) c.session_total_slices) refl;
  signalled = rw (get-put_self s false c.session_events) refl;
}

made_by-AreOf :
    (now session total : ℕ) (cid url : Option ℕ) (up : ℕ → Option ℕ) (src : Option (List ℕ))
    (container : Bool) (image : Option ℕ) (slices : List TestSliceDispatch)
    → AreOf session (map (make_task now session total cid url up src container image) slices)
      × (length (map (make_task now session total cid url up src container image) slices)
          ≡ length slices)
unfolding make_task
made_by-AreOf now session total cid url up src container image [] = (tt, refl)
made_by-AreOf now session total cid url up src container image (x ∷ xs) =
    let (all, same) = made_by-AreOf now session total cid url up src container image xs in
    ((refl, all), ap suc same)

module _ (c : SliceLeaseCoordinator) (now : ℕ) (x : Submission) where
  abbrev the_url : Option ℕ
  the_url = elim x.collateral [ none ↦ none | some cid ↦ x.download cid ]

  made-AreOf : AreOf x.session (made_by now x) × (length (made_by now x) ≡ length x.slices)
  made-AreOf =
      made_by-AreOf now x.session (length x.slices) x.collateral the_url x.upload x.sources
        x.container x.image x.slices

  -- A session of which nothing is outstanding is accounted for when it has been enqueued.
  submit-IsAccounted : IsAbsent x.session c → IsAccounted x.session (made_by now x) (submit c now x)
  unfolding submit enqueue_session_slices
  submit-IsAccounted absent =
      subst
        (λ n. IsAccounted x.session (made_by now x) (enqueue_tasks c x.session n (made_by now x)))
        made-AreOf.1 (enqueue_own x.session c (made_by now x) made-AreOf.0 absent)

  submit_other :
      (s : ℕ) (made : List SliceTaskDescriptor)
      → x.session ≢ s
      → IsAccounted s made c
      → IsAccounted s made (submit c now x)
  unfolding submit enqueue_session_slices
  submit_other s made other h =
      enqueue_other s x.session (length x.slices) made c (made_by now x) other made-AreOf.0 h

step-IsAccounted :
    (s : ℕ) (made : List SliceTaskDescriptor) (c : SliceLeaseCoordinator) (x : Call)
    → IsFresh s c x
    → IsAccounted s made c
    → IsAccounted s made (step c x)
unfolding step reclaim_expired_leases
step-IsAccounted s made c (registers reg now) f h = register_worker-IsAccounted s made c h reg now
step-IsAccounted s made c (beats worker now ids) f h =
    record_heartbeat-IsAccounted s made c h worker now ids
step-IsAccounted s made c (submits now x) f h = submit_other c now x s made f h
step-IsAccounted s made c (leases worker lease_id now) f h =
    lease_slice-IsAccounted s made c h worker lease_id now f
step-IsAccounted s made c (reports report) f h =
    report_slice_outcome-IsAccounted s made c h report f
step-IsAccounted s made c (reclaims now) f h =
    reclaim_all-IsAccounted s made c (expired_ids now c.active_leases) h

run-IsAccounted :
    (s : ℕ) (made : List SliceTaskDescriptor) (c : SliceLeaseCoordinator) (xs : List Call)
    → AllFresh s c xs
    → IsAccounted s made c
    → IsAccounted s made (run c xs)
unfolding run
run-IsAccounted s made c [] f h = h
run-IsAccounted s made c (x ∷ xs) f h =
    run-IsAccounted s made (step c x) xs f.1 (step-IsAccounted s made c x f.0 h)

-- From the enqueueing of a session on, under any calls of workers, the watchdog and other sessions,
-- each slice that was made for it waits, is leased or has been reported, exactly as often as it was
-- made; its reports carry the indices of the reported slices, in order; and its event is set exactly
-- when something has been reported and everything has. (No slice of the session was outstanding
-- before, it is not enqueued again, lease identifiers are new, and the entries of every report fit the
-- fields of a test's record: a report with one that does not loses its slice.)
pub session-IsAccounted :
    (c : SliceLeaseCoordinator) (now : ℕ) (x : Submission) (xs : List Call)
    → IsAbsent x.session c
    → AllFresh x.session (submit c now x) xs
    → IsAccounted x.session (made_by now x) (run (submit c now x) xs)
session-IsAccounted c now x xs h f =
    run-IsAccounted x.session (made_by now x) (submit c now x) xs f (submit-IsAccounted c now x h)
