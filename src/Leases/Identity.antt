-- ===== src/Leases/Identity.antt =====
-- lease_coordinator.py: the keys of the active leases.
use hexaqueue.Prelude.{ℕ, inl, inr, List, [], ◌∷◌, arith, Option-cases, get_or}
use hexaqueue.Prelude.Dict.{Unique, Unique-put, Unique-del, get}
use hexaqueue.Leases.Coordinator.{
  SliceLeaseCoordinator, register_worker, record_heartbeat, enqueue_session_slices, enqueue_tasks,
  lease_slice, lease_from, make_lease, report_slice_outcome, reclaim_one, reclaim_all,
  reclaim_expired_leases, expired_ids,
}
use hexaqueue.Leases.Model.{SliceReportPayload, SliceTaskDescriptor}
use hexaqueue.Leases.Renewal.{accept_report-leases, renew_owned-Unique}
use hexaqueue.Leases.Sessions.{
  Call, registers, beats, submits, leases, reports, reclaims, step, submit, run,
}

abbrev pub IsKeyed : SliceLeaseCoordinator → Type 0
IsKeyed c = Unique c.active_leases

reclaim_all-IsKeyed :
    (ids : List ℕ) (c : SliceLeaseCoordinator) → IsKeyed c → IsKeyed (reclaim_all ids c)
unfolding reclaim_all reclaim_one
reclaim_all-IsKeyed [] c u = u
reclaim_all-IsKeyed (i ∷ ids) c u = reclaim_all-IsKeyed ids (reclaim_one i c) one
  where
    one : IsKeyed (reclaim_one i c)
    one = elim (Option-cases (get i c.active_leases)) [
      | inl e ↦ rw (e, reclaim_one) u
      | inr (l, e) ↦ rw (e, reclaim_one) (Unique-del i c.active_leases u)
    ]

report_slice_outcome-IsKeyed :
    (c : SliceLeaseCoordinator) (r : SliceReportPayload)
    → IsKeyed c
    → IsKeyed (report_slice_outcome c r).0
unfolding report_slice_outcome
report_slice_outcome-IsKeyed c r u = elim (Option-cases (get r.lease_id c.active_leases)) [
  | inl e ↦ rw (e, report_slice_outcome) u
  | inr (l, e) ↦
      rw (e, report_slice_outcome, accept_report-leases c r l)
        (Unique-del r.lease_id c.active_leases u)
]

lease_from-IsKeyed :
    (c : SliceLeaseCoordinator) (worker id now : ℕ) (tasks : List SliceTaskDescriptor)
    → IsKeyed c
    → IsKeyed (lease_from c worker id now tasks).0
unfolding lease_from
lease_from-IsKeyed c worker id now [] u = u
lease_from-IsKeyed c worker id now (t ∷ ts) u =
    Unique-put id (make_lease c worker id now t) c.active_leases u

step-IsKeyed : (c : SliceLeaseCoordinator) (x : Call) → IsKeyed c → IsKeyed (step c x)
unfolding step register_worker record_heartbeat submit enqueue_session_slices enqueue_tasks
    lease_slice reclaim_expired_leases
step-IsKeyed c (registers reg now) u = u
step-IsKeyed c (beats worker now ids) u =
    ground (arith, renew_owned-Unique c.default_ttl worker now (get_or ids []) c.active_leases u)
step-IsKeyed c (submits now x) u = u
step-IsKeyed c (leases worker id now) u = lease_from-IsKeyed c worker id now c.pending_tasks u
step-IsKeyed c (reports r) u = report_slice_outcome-IsKeyed c r u
step-IsKeyed c (reclaims now) u = reclaim_all-IsKeyed (expired_ids now c.active_leases) c u

-- If each lease has one entry, it has one after any sequence of calls.
pub run-IsKeyed : (c : SliceLeaseCoordinator) (xs : List Call) → IsKeyed c → IsKeyed (run c xs)
unfolding run
run-IsKeyed c [] u = u
run-IsKeyed c (x ∷ xs) u = run-IsKeyed (step c x) xs (step-IsKeyed c x u)
