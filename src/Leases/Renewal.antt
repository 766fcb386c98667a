-- ===== src/Leases/Renewal.antt =====
-- lease_coordinator.py: heartbeats, and reports for leases that are gone.
use hexaqueue.Prelude.{
  ℕ, ◌+◌, ◌≤◌, ◌≡◌, ◌⊎◌, ap, refl, ◌∙◌, subst, sym, inl, inr, Bool, true, false, not, ◌&&◌, ◌||◌,
  Option, none, some, List, [], ◌∷◌, arith, ◌==◌, if◌then◌else◌, Bool-cases, Option-cases,
}
use hexaqueue.Prelude.Lists.{filter, member}
use hexaqueue.Prelude.Dict.{del, Dict, get, contains, get-put, get-del_self, Unique, Unique-put}
use hexaqueue.Leases.Model.{SliceLease, is_expired, renew, SliceReportPayload}
use hexaqueue.Leases.Reports.{outcome_response}
use hexaqueue.Leases.Coordinator.{
  SliceLeaseCoordinator, renew_one, renew_owned, record_heartbeat, report_slice_outcome,
  accept_report, record_response, reclaim_expired_leases,
}
use hexaqueue.Leases.Reclaim.{reclaim_expired_leases-eq}

-- A lease after a heartbeat, by whether the heartbeat names it and its worker holds it.
abbrev pub renewed : ℕ → ℕ → ℕ → Bool → Option SliceLease → Option SliceLease
renewed ttl worker now named none = none
renewed ttl worker now named (some l) =
    if named && (l.worker_id == worker) then some (renew l now ttl) else some l

get-renew_one :
    (ttl worker now i k : ℕ) (d : Dict SliceLease)
    → get k (renew_one ttl worker now i d) ≡ renewed ttl worker now (k == i) (get k d)
unfolding renew_one renew
get-renew_one ttl worker now i k d = elim (Option-cases (get i d)) [
  | inl e ↦ rw (e, renew_one) (ground arith)
  | inr (l, e) ↦ rw (e, renew_one) (ground (arith, get-put i k (renew l now ttl) d))
]

renewed_twice :
    (ttl worker now : ℕ) (a b : Bool) (o : Option SliceLease)
    → renewed ttl worker now a (renewed ttl worker now b o) ≡ renewed ttl worker now (b || a) o
unfolding renew
renewed_twice ttl worker now a b o = ground arith

get-renew_owned :
    (ttl worker now k : ℕ) (ids : List ℕ) (d : Dict SliceLease)
    → get k (renew_owned ttl worker now ids d) ≡ renewed ttl worker now (member k ids) (get k d)
unfolding renew_owned
get-renew_owned ttl worker now k [] d = ground arith
get-renew_owned ttl worker now k (i ∷ ids) d =
    get-renew_owned ttl worker now k ids (renew_one ttl worker now i d)
    ∙ ap (renewed ttl worker now (member k ids)) (get-renew_one ttl worker now i k d)
    ∙ renewed_twice ttl worker now (member k ids) (k == i) (get k d)

get-filter :
    (now k : ℕ) (d : Dict SliceLease)
    → Unique d
    → get k (filter (λ e. not (is_expired now e.1)) d)
      ≡ (elim (get k d) [ none ↦ none | some l ↦ if is_expired now l then none else some l ])
get-filter now k [] u = refl
get-filter now k ((i, l) ∷ d) u = elim (Bool-cases (is_expired now l)) [
  | inl e ↦ rw (e, not) (ground (arith, get-filter now k d u.1))
  | inr e ↦ rw (e, not) (ground (arith, get-filter now k d u.1))
]

-- A heartbeat is accepted exactly from a registered worker. It then extends the leases that it names
-- and that worker holds to the default time from now, and leaves every other lease as it was; a
-- refused heartbeat changes nothing.
pub record_heartbeat_renews :
    (c : SliceLeaseCoordinator) (worker now k : ℕ) (ids : List ℕ)
    → ((contains worker c.registered_workers ≡ false)
        × (record_heartbeat c worker now (some ids) ≡ (c, false)))
      ⊎ ((contains worker c.registered_workers ≡ true)
          × ((record_heartbeat c worker now (some ids)).1 ≡ true)
          × (get k (record_heartbeat c worker now (some ids)).0.active_leases
              ≡ renewed c.default_ttl worker now (member k ids) (get k c.active_leases)))
unfolding record_heartbeat
record_heartbeat_renews c worker now k ids =
    elim (Bool-cases (contains worker c.registered_workers)) [
      | inl e ↦ inr (
        e,
        ground (arith, e),
        ground (arith, e, get-renew_owned c.default_ttl worker now k ids c.active_leases),
      )
      | inr e ↦ inl (e, ground (arith, e))
    ]

pub renew_owned-Unique :
    (ttl worker now : ℕ) (ids : List ℕ) (d : Dict SliceLease)
    → Unique d
    → Unique (renew_owned ttl worker now ids d)
unfolding renew_owned renew_one
renew_owned-Unique ttl worker now [] d u = u
renew_owned-Unique ttl worker now (i ∷ ids) d u =
    renew_owned-Unique ttl worker now ids (renew_one ttl worker now i d) one
  where
    one : Unique (renew_one ttl worker now i d)
    one = elim (Option-cases (get i d)) [
      | inl e ↦ rw (e, renew_one) u
      | inr (l, e) ↦ rw (e, renew_one) (ground (arith, Unique-put i (renew l now ttl) d u))
    ]

get-reclaim :
    (c : SliceLeaseCoordinator) (now k : ℕ)
    → Unique c.active_leases
    → get k (reclaim_expired_leases c now).0.active_leases ≡ (elim (get k c.active_leases) [
      | none ↦ none
      | some l ↦ if is_expired now l then none else some l
    ])
get-reclaim c now k u =
    ap (λ r. get k r.0.active_leases) (reclaim_expired_leases-eq c now u)
    ∙ get-filter now k c.active_leases u

-- Where each lease has one entry, a lease that its registered worker names in a heartbeat is not
-- reclaimed within the default time from then.
pub heartbeat_keeps :
    (c : SliceLeaseCoordinator) (worker now later k : ℕ) (ids : List ℕ) (l : SliceLease)
    → Unique c.active_leases
    → contains worker c.registered_workers ≡ true
    → get k c.active_leases ≡ some l
    → l.worker_id ≡ worker
    → member k ids ≡ true
    → later ≤ now + c.default_ttl
    → get k
        (reclaim_expired_leases (record_heartbeat c worker now (some ids)).0 later).0.active_leases
      ≡ some (renew l now c.default_ttl)
unfolding record_heartbeat is_expired renew
heartbeat_keeps c worker now later k ids l u known e owned named soon = ground (
  arith,
  get-reclaim (record_heartbeat c worker now (some ids)).0 later k unique,
  get-renew_owned c.default_ttl worker now k ids c.active_leases,
)
  where
    unique : Unique (record_heartbeat c worker now (some ids)).0.active_leases
    unique = ground (arith, renew_owned-Unique c.default_ttl worker now ids c.active_leases u)

unknown_refused :
    (c : SliceLeaseCoordinator) (r : SliceReportPayload)
    → get r.lease_id c.active_leases ≡ none
    → report_slice_outcome c r ≡ (c, some false)
unfolding report_slice_outcome
unknown_refused c r e = rw (e, report_slice_outcome)

-- Where each lease has one entry, a report for an expired lease that has been reclaimed is refused
-- and changes nothing.
pub late_report_refused :
    (c : SliceLeaseCoordinator) (now : ℕ) (r : SliceReportPayload) (l : SliceLease)
    → Unique c.active_leases
    → get r.lease_id c.active_leases ≡ some l
    → is_expired now l ≡ true
    → report_slice_outcome (reclaim_expired_leases c now).0 r
      ≡ ((reclaim_expired_leases c now).0, some false)
late_report_refused c now r l u e over =
    unknown_refused (reclaim_expired_leases c now).0 r
      (ground (arith, get-reclaim c now r.lease_id u, e, over))

-- Whether its entries fit or not, a report takes its lease.
pub accept_report-leases :
    (c : SliceLeaseCoordinator) (r : SliceReportPayload) (l : SliceLease)
    → (accept_report c r l).0.active_leases ≡ del r.lease_id c.active_leases
unfolding accept_report record_response
accept_report-leases c r l = elim (Option-cases (outcome_response r l.task)) [
  | inl e ↦ rw (e, accept_report) refl
  | inr (response, e) ↦ rw (e, accept_report) refl
]

-- Where each lease has one entry, a second report for one lease is refused and changes nothing.
pub second_report_refused :
    (c : SliceLeaseCoordinator) (r r' : SliceReportPayload)
    → Unique c.active_leases
    → r'.lease_id ≡ r.lease_id
    → report_slice_outcome (report_slice_outcome c r).0 r'
      ≡ ((report_slice_outcome c r).0, some false)
unfolding report_slice_outcome
second_report_refused c r r' u same =
    unknown_refused (report_slice_outcome c r).0 r'
      (subst (λ k. get k (report_slice_outcome c r).0.active_leases ≡ none) (sym same) gone)
  where
    gone : get r.lease_id (report_slice_outcome c r).0.active_leases ≡ none
    gone = elim (Option-cases (get r.lease_id c.active_leases)) [
      | inl e ↦ rw (e, report_slice_outcome) e
      | inr (l, e) ↦
          rw (e, report_slice_outcome, accept_report-leases c r l)
            (get-del_self r.lease_id c.active_leases u)
    ]
