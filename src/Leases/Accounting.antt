-- ===== src/Leases/Accounting.antt =====
-- lease_coordinator.py: each call of the coordinator keeps the slices of a session accounted for.
use hexaqueue.Prelude.{
  ℕ, ◌≡◌, ap, subst, inl, inr, Bool, true, Option, none, some, List, [], ◌∷◌, ◌++◌, arith, refl,
  not, false, is_some, on_if, Bool-cases, ==_iff, ◌==◌, get_or, Option-cases,
}
use hexaqueue.Prelude.Lists.{sum_by}
use hexaqueue.Prelude.Dict.{get, contains, del, get-put, sum_by-put_new, sum_by-del}
use hexaqueue.Leases.Model.{
  WorkerRegistration, SliceTaskDescriptor, SliceLease, SliceReportPayload, SliceOutcomeResponse,
}
use hexaqueue.Leases.Reports.{read_outcomes}
use hexaqueue.Leases.Coordinator.{
  SliceLeaseCoordinator, register_worker, make_lease, lease_from, reclaim_one, record_heartbeat,
  lease_slice, accept_report, record_response, report_slice_outcome, reclaim_all,
}
use hexaqueue.Leases.Accounted.{
  IsAccounted, outstanding, reports_of, leased_in-renew, weight, readable_response, own_report,
}

module _ (s : ℕ) (made : List SliceTaskDescriptor) (c : SliceLeaseCoordinator)
    (h : IsAccounted s made c) where
  pub register_worker-IsAccounted :
      (reg : WorkerRegistration) (now : ℕ) → IsAccounted s made (register_worker c reg now)
  unfolding register_worker
  register_worker-IsAccounted reg now = record {
    finished = h.finished;
    accounted = h.accounted;
    numbered = h.numbered;
    totalled = h.totalled;
    signalled = h.signalled;
  }

  -- A change of the queue and the leases that keeps every weight.
  moved :
      (c' : SliceLeaseCoordinator)
      → ((f : SliceTaskDescriptor → ℕ) → outstanding s f c' ≡ outstanding s f c)
      → c'.session_reports ≡ c.session_reports
      → c'.session_total_slices ≡ c.session_total_slices
      → c'.session_events ≡ c.session_events
      → IsAccounted s made c'
  moved c' weights reports totals events = record {
    finished = h.finished;
    accounted = λ f. omega (arith, weights f, h.accounted f);
    numbered = rw reports h.numbered;
    totalled = rw totals h.totalled;
    signalled = rw events h.signalled;
  }

  pub record_heartbeat-IsAccounted :
      (worker now : ℕ) (ids : Option (List ℕ))
      → IsAccounted s made (record_heartbeat c worker now ids).0
  unfolding record_heartbeat
  record_heartbeat-IsAccounted worker now ids =
      on_if (λ (r : SliceLeaseCoordinator × Bool). IsAccounted s made r.0)
        (not (contains worker c.registered_workers)) (c, false) _ h
        (moved _
          (λ f.
            omega
              (arith, leased_in-renew s f c.default_ttl worker now (get_or ids []) c.active_leases))
          refl refl refl)

  lease_from-IsAccounted :
      (worker lease_id now : ℕ) (tasks : List SliceTaskDescriptor)
      → get lease_id c.active_leases ≡ none
      → c.pending_tasks ≡ tasks
      → IsAccounted s made (lease_from c worker lease_id now tasks).0
  unfolding lease_from
  lease_from-IsAccounted worker lease_id now [] fresh e = h
  lease_from-IsAccounted worker lease_id now (task ∷ rest) fresh e =
      moved _
        (λ f. omega (
          arith,
          sum_by-put_new (λ (k : SliceLease). weight s f k.task) lease_id
              (make_lease c worker lease_id now task) c.active_leases fresh,
          ap (sum_by (weight s f)) e,
        ))
        refl refl refl

  pub lease_slice-IsAccounted :
      (worker lease_id now : ℕ)
      → get lease_id c.active_leases ≡ none
      → IsAccounted s made (lease_slice c worker lease_id now).0
  unfolding lease_slice
  lease_slice-IsAccounted worker lease_id now fresh =
      lease_from-IsAccounted worker lease_id now c.pending_tasks fresh refl

  reclaim_one-IsAccounted : (i : ℕ) → IsAccounted s made (reclaim_one i c)
  unfolding reclaim_one
  reclaim_one-IsAccounted i = elim (Option-cases (get i c.active_leases)) [
    | inl e ↦ rw (e, reclaim_one) h
    | inr (l, e) ↦
        rw (e, reclaim_one)
          (moved _
            (λ f.
              omega
                (arith, sum_by-del (λ (k : SliceLease). weight s f k.task) i l c.active_leases e))
            refl refl refl)
  ]

  other_report :
      (i : ℕ) (l : SliceLease) (response : SliceOutcomeResponse)
      → get i c.active_leases ≡ some l
      → (l.task.session_id == s) ≡ false
      → IsAccounted s made
          (record_response (record c { active_leases = del i c.active_leases }) l response)
  unfolding record_response
  other_report i l response e other = record {
    finished = h.finished;
    accounted = λ f. ground (
      arith,
      h.accounted f,
      sum_by-del (λ (k : SliceLease). weight s f k.task) i l c.active_leases e,
    );
    numbered = ground (
      arith,
      h.numbered,
      get-put l.task.session_id s (reports_of l.task.session_id c ++ response ∷ [])
          c.session_reports,
    );
    totalled = h.totalled;
    signalled = ground (arith, h.signalled, get-put l.task.session_id s true c.session_events);
  }

  pub report_slice_outcome-IsAccounted :
      (report : SliceReportPayload)
      → is_some (read_outcomes report report.outcomes) ≡ true
      → IsAccounted s made (report_slice_outcome c report).0
  unfolding report_slice_outcome accept_report
  report_slice_outcome-IsAccounted report readable =
      elim (Option-cases (get report.lease_id c.active_leases)) [
        | inl e ↦ rw (e, report_slice_outcome) h
        | inr (l, e) ↦
            let (response, found, same) = readable_response report l.task readable in
            rw (e, found, report_slice_outcome, accept_report)
              (elim (Bool-cases (l.task.session_id == s)) [
                | inl own ↦
                    subst
                      (λ n.
                        IsAccounted n made c
                        → IsAccounted n made (
                            record_response
                              (record c { active_leases = del report.lease_id c.active_leases }) l
                              response))
                      ((==_iff l.task.session_id s).0 own)
                      (own_report made c report.lease_id l response e same) h
                | inr other ↦ other_report report.lease_id l response e other
              ])
      ]

pub reclaim_all-IsAccounted :
    (s : ℕ) (made : List SliceTaskDescriptor) (c : SliceLeaseCoordinator) (ids : List ℕ)
    → IsAccounted s made c
    → IsAccounted s made (reclaim_all ids c)
unfolding reclaim_all
reclaim_all-IsAccounted s made c [] h = h
reclaim_all-IsAccounted s made c (i ∷ ids) h =
    reclaim_all-IsAccounted s made (reclaim_one i c) ids (reclaim_one-IsAccounted s made c h i)
