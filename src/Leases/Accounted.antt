-- ===== src/Leases/Accounted.antt =====
-- lease_coordinator.py: what it means that the slices of a session are accounted for, and that a report
-- of one of them keeps it.
use hexaqueue.Prelude.{
  ℕ, ◌+◌, ◌≡◌, ap, sym, ◌∙◌, inl, inr, true, ◌&&◌, some, List, [], ◌∷◌, ◌++◌, map, arith, refl, leb,
  is_some, ◌==◌, if◌then◌else◌, get_or, Option-cases,
}
use hexaqueue.Prelude.Lists.{length, length-append, sum_by, sum_by-append}
use hexaqueue.Prelude.Dict.{Dict, get, del, values, get-put_self, sum_by-put_known, sum_by-del}
use hexaqueue.Leases.Model.{
  SliceTaskDescriptor, SliceLease, renew, SliceReportPayload, SliceOutcomeResponse, OutcomeEntry,
  TestOutcomeRecord,
}
use hexaqueue.Leases.Reports.{
  outcome_response, outcome_records, make_response, read_outcomes, default_record,
}
use hexaqueue.Leases.Coordinator.{SliceLeaseCoordinator, renew_one, renew_owned, record_response}

-- What a slice of the session weighs.
abbrev pub weight : ℕ → (SliceTaskDescriptor → ℕ) → SliceTaskDescriptor → ℕ
weight s f task = if task.session_id == s then f task else 0

abbrev pub leased_in : ℕ → (SliceTaskDescriptor → ℕ) → Dict SliceLease → ℕ
leased_in s f leases = sum_by (λ l. weight s f l.task) (values leases)

-- The weight of the slices of a session that wait or are leased.
abbrev pub outstanding : ℕ → (SliceTaskDescriptor → ℕ) → SliceLeaseCoordinator → ℕ
outstanding s f c = sum_by (weight s f) c.pending_tasks + leased_in s f c.active_leases

abbrev pub reports_of : ℕ → SliceLeaseCoordinator → List SliceOutcomeResponse
reports_of s c = get_or (get s c.session_reports) []

abbrev pub total_of : ℕ → SliceLeaseCoordinator → ℕ
total_of s c = get_or (get s c.session_total_slices) 0

abbrev pub indices : List SliceTaskDescriptor → List ℕ
indices = map (λ t. t.slice_index)

-- The slices `made` for a session are those that wait, those that are leased and those that have been
-- reported, each as often as it was made: all weights agree. The reports are those of the last, in
-- order, and the event of the session is set exactly when something is reported and all is.
pub record IsAccounted (s : ℕ) (made : List SliceTaskDescriptor) (c : SliceLeaseCoordinator)
    : Type 0 where
  pub finished : List SliceTaskDescriptor
  pub accounted :
      (f : SliceTaskDescriptor → ℕ) → outstanding s f c + sum_by f finished ≡ sum_by f made
  pub numbered : map (λ r. r.slice_index) (reports_of s c) ≡ indices finished
  pub totalled : total_of s c ≡ length made
  pub signalled :
      get s c.session_events ≡ some (leb 1 (length finished) && leb (length made) (length finished))

leased_in-renew_one :
    (s : ℕ) (f : SliceTaskDescriptor → ℕ) (ttl worker now i : ℕ) (leases : Dict SliceLease)
    → leased_in s f (renew_one ttl worker now i leases) ≡ leased_in s f leases
unfolding renew_one renew
leased_in-renew_one s f ttl worker now i leases = elim (Option-cases (get i leases)) [
  | inl e ↦ rw (e, renew_one)
  | inr (l, e) ↦
      rw (e, renew_one)
        (ground (
          arith,
          sum_by-put_known (λ (k : SliceLease). weight s f k.task) i (renew l now ttl) l leases e,
        ))
]

pub leased_in-renew :
    (s : ℕ) (f : SliceTaskDescriptor → ℕ) (ttl worker now : ℕ) (ids : List ℕ)
    (leases : Dict SliceLease)
    → leased_in s f (renew_owned ttl worker now ids leases) ≡ leased_in s f leases
unfolding renew_owned
leased_in-renew s f ttl worker now [] leases = refl
leased_in-renew s f ttl worker now (i ∷ ids) leases =
    leased_in-renew s f ttl worker now ids (renew_one ttl worker now i leases)
    ∙ leased_in-renew_one s f ttl worker now i leases

map-length : {A B : Type 0} (f : A → B) (xs : List A) → length (map f xs) ≡ length xs
map-length f [] = refl
map-length f (x ∷ xs) = ground (arith, map-length f xs)

weight_own :
    (f : SliceTaskDescriptor → ℕ) (task : SliceTaskDescriptor)
    → weight task.session_id f task ≡ f task
weight_own f task = ground arith

map-append : {A B : Type 0} (f : A → B) (xs ys : List A) → map f (xs ++ ys) ≡ map f xs ++ map f ys
map-append f [] ys = refl
map-append f (x ∷ xs) ys = rw (map-append f xs ys) refl

readable_records :
    (report : SliceReportPayload) (task : SliceTaskDescriptor) (os : List OutcomeEntry)
    → report.outcomes ≡ os
    → is_some (read_outcomes report os) ≡ true
    → (records : List TestOutcomeRecord) × (outcome_records report task ≡ some records)
unfolding outcome_records
readable_records report task [] e h = (map (default_record report) task.test_nodeids, rw e refl)
readable_records report task (o ∷ os) e h = elim (Option-cases (read_outcomes report (o ∷ os))) [
  | inl bad ↦ cc (rw bad at h)
  | inr (records, found) ↦ (records, rw e found)
]

pub readable_response :
    (report : SliceReportPayload) (task : SliceTaskDescriptor)
    → is_some (read_outcomes report report.outcomes) ≡ true
    → (response : SliceOutcomeResponse) × (outcome_response report task ≡ some response)
      × (response.slice_index ≡ task.slice_index)
unfolding outcome_response
readable_response report task h =
    let (records, found) = readable_records report task report.outcomes refl h in
    (make_response report task records, rw found refl, refl)

-- The lease of a slice of the session is gone, and its report is there.
pub own_report :
    (made : List SliceTaskDescriptor) (c : SliceLeaseCoordinator) (i : ℕ) (l : SliceLease)
    (response : SliceOutcomeResponse)
    → get i c.active_leases ≡ some l
    → response.slice_index ≡ l.task.slice_index
    → IsAccounted l.task.session_id made c
    → IsAccounted l.task.session_id made
        (record_response (record c { active_leases = del i c.active_leases }) l response)
unfolding record_response
own_report made c i l response e same h =
    let sid = l.task.session_id in
    let reports = reports_of sid c in
    let both = reports ++ response ∷ [] in
    record {
      finished = h.finished ++ l.task ∷ [];
      accounted = λ f. omega (
        arith,
        sum_by-del (λ (k : SliceLease). weight sid f k.task) i l c.active_leases e,
        sum_by-append f h.finished (l.task ∷ []),
        weight_own f l.task,
        h.accounted f,
      );
      numbered = rw (get-put_self sid both c.session_reports) (
          map-append (λ r. r.slice_index) reports (response ∷ [])
          ∙ ap (λ ns. ns ++ response.slice_index ∷ []) h.numbered
          ∙ ap (λ n. indices h.finished ++ n ∷ []) same
          ∙ sym (map-append (λ t. t.slice_index) h.finished (l.task ∷ [])));
      totalled = h.totalled;
      signalled = ground (
        arith,
        h.signalled,
        h.totalled,
        get-put_self sid true c.session_events,
        length-append reports (response ∷ []),
        length-append h.finished (l.task ∷ []),
        sym (map-length (λ (r : SliceOutcomeResponse). r.slice_index) reports)
            ∙ ap length h.numbered
            ∙ map-length (λ (t : SliceTaskDescriptor). t.slice_index) h.finished,
      );
    }
