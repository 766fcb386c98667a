-- ===== src/Leases/Coordinator.antt =====
-- lease_coordinator.py, class SliceLeaseCoordinator. Each call runs under the lock, so it is one step
-- on the state. The clock is read once for a call and is an argument, as is the identifier of a new
-- lease.
use hexaqueue.Prelude.{
  ℕ, ◌+◌, ◌-◌, Bool, true, false, not, Option, none, some, List, [], ◌∷◌, ◌++◌, map, leb, ◌==◌,
  if◌then◌else◌, get_or,
}
use hexaqueue.Prelude.Lists.{length, sum_by}
use hexaqueue.Prelude.Dict.{Dict, get, contains, put, del, values}
use hexaqueue.Leases.Model.{
  SliceLeaseState, WorkerRegistration, SliceTaskDescriptor, SliceLease, renew, is_expired,
  SliceReportPayload, SliceOutcomeResponse, TestSliceDispatch,
}
use hexaqueue.Leases.Reports.{outcome_response}

-- An event is true once it is set.
pub record SliceLeaseCoordinator : Type 0 where
  pub default_ttl : ℕ
  pub registered_workers : Dict WorkerRegistration
  pub worker_last_seen : Dict ℕ
  pub pending_tasks : List SliceTaskDescriptor
  pub active_leases : Dict SliceLease
  pub session_total_slices : Dict ℕ
  pub session_reports : Dict (List SliceOutcomeResponse)
  pub session_events : Dict Bool

abbrev pub make_coordinator : ℕ → SliceLeaseCoordinator
make_coordinator default_lease_ttl_seconds = record {
  default_ttl = default_lease_ttl_seconds;
  registered_workers = [];
  worker_last_seen = [];
  pending_tasks = [];
  active_leases = [];
  session_total_slices = [];
  session_reports = [];
  session_events = [];
}

abbrev pub pending_count : SliceLeaseCoordinator → ℕ
pending_count c = length c.pending_tasks

abbrev pub active_lease_count : SliceLeaseCoordinator → ℕ
active_lease_count c = length c.active_leases

-- Workers seen within the last 60 seconds, `minute` of clock ticks.
unfoldable pub active_worker_count : ℕ → SliceLeaseCoordinator → ℕ → ℕ
active_worker_count minute c now =
    sum_by (λ ts. if leb (now - minute) ts then 1 else 0) (values c.worker_last_seen)

unfoldable pub register_worker :
    SliceLeaseCoordinator → WorkerRegistration → ℕ → SliceLeaseCoordinator
register_worker c reg now = record c {
  registered_workers = put reg.worker_id reg c.registered_workers;
  worker_last_seen = put reg.worker_id now c.worker_last_seen;
}

-- The body of the loop of `record_heartbeat`, and the loop over the lease identifiers.
unfoldable pub renew_one : ℕ → ℕ → ℕ → ℕ → Dict SliceLease → Dict SliceLease
renew_one ttl worker_id now l_id leases = elim (get l_id leases) [
  | none ↦ leases
  | some lease ↦
      if lease.worker_id == worker_id then put l_id (renew lease now ttl) leases else leases
]

unfoldable pub renew_owned : ℕ → ℕ → ℕ → List ℕ → Dict SliceLease → Dict SliceLease
unfolding renew_one
renew_owned ttl worker_id now [] leases = leases
renew_owned ttl worker_id now (l_id ∷ l_ids) leases =
    renew_owned ttl worker_id now l_ids (renew_one ttl worker_id now l_id leases)

unfoldable pub record_heartbeat :
    SliceLeaseCoordinator → ℕ → ℕ → Option (List ℕ) → SliceLeaseCoordinator × Bool
unfolding renew_owned
record_heartbeat c worker_id now active_lease_ids =
    if not (contains worker_id c.registered_workers) then (c, false) else (
      record c {
        worker_last_seen = put worker_id now c.worker_last_seen;
        active_leases =
            renew_owned c.default_ttl worker_id now (get_or active_lease_ids []) c.active_leases;
      },
      true,
    )

-- `collateral_url` and `upload_url` are what the collateral service and the storage port return, with
-- `none` for a port that is absent or raises.
unfoldable pub make_task :
    ℕ
    → ℕ
    → ℕ
    → Option ℕ
    → Option ℕ
    → (ℕ → Option ℕ)
    → Option (List ℕ)
    → Bool
    → Option ℕ
    → TestSliceDispatch
    → SliceTaskDescriptor
make_task now session_id total collateral_id collateral_url upload_url sources container image s =
    record {
      collateral_download_url = collateral_url;
      collateral_id = collateral_id;
      container = container;
      container_image = image;
      coverage_sources = sources;
      coverage_upload_url = elim sources [
        | none ↦ none
        | some ns ↦ elim ns [ [] ↦ none | _ ∷ _ ↦ upload_url s.slice_id ]
      ];
      created_at = now;
      session_id = session_id;
      slice_id = s.slice_id;
      slice_index = s.slice_index;
      test_nodeids = s.test_nodeids;
      total_slices = total;
    }

-- The writes of `enqueue_session_slices`, under the lock.
unfoldable pub enqueue_tasks :
    SliceLeaseCoordinator → ℕ → ℕ → List SliceTaskDescriptor → SliceLeaseCoordinator
enqueue_tasks c session_id total tasks = record c {
  session_total_slices = put session_id total c.session_total_slices;
  session_reports = put session_id [] c.session_reports;
  session_events = put session_id false c.session_events;
  pending_tasks = c.pending_tasks ++ tasks;
}

unfoldable pub enqueue_session_slices :
    SliceLeaseCoordinator
    → ℕ
    → ℕ
    → List TestSliceDispatch
    → Option ℕ
    → (ℕ → Option ℕ)
    → (ℕ → Option ℕ)
    → Option (List ℕ)
    → Bool
    → Option ℕ
    → SliceLeaseCoordinator
unfolding enqueue_tasks make_task
enqueue_session_slices c now session_id slices collateral_id download_url upload_url sources
      container image =
    let collateral_url : Option ℕ = elim collateral_id [
      | none ↦ none
      | some cid ↦ download_url cid
    ] in
    let total = length slices in
    enqueue_tasks c session_id total (
      map
        (make_task now session_id total collateral_id collateral_url upload_url sources container
          image)
        slices)

abbrev pub make_lease : SliceLeaseCoordinator → ℕ → ℕ → ℕ → SliceTaskDescriptor → SliceLease
make_lease c worker_id lease_id now task = record {
  expires_at = now + c.default_ttl;
  last_heartbeat_at = now;
  lease_id = lease_id;
  leased_at = now;
  state = SliceLeaseState.leased;
  task = task;
  worker_id = worker_id;
}

-- The end of `lease_slice`, with the queue taken apart.
unfoldable pub lease_from :
    SliceLeaseCoordinator
    → ℕ
    → ℕ
    → ℕ
    → List SliceTaskDescriptor
    → SliceLeaseCoordinator × Option SliceLease
lease_from c worker_id lease_id now [] = (c, none)
lease_from c worker_id lease_id now (task ∷ rest) =
    let lease = make_lease c worker_id lease_id now task in
    (
      record c {
        pending_tasks = rest;
        active_leases = put lease_id lease c.active_leases;
        worker_last_seen = put worker_id now c.worker_last_seen;
      },
      some lease,
    )

-- One pass of `lease_slice`: `none` where it returns None, or waits and then tests the queue again.
unfoldable pub lease_slice :
    SliceLeaseCoordinator → ℕ → ℕ → ℕ → SliceLeaseCoordinator × Option SliceLease
unfolding lease_from
lease_slice c worker_id lease_id now = lease_from c worker_id lease_id now c.pending_tasks

-- `event.set()` where the event exists.
abbrev pub set_event : ℕ → Dict Bool → Dict Bool
set_event session_id events =
    if contains session_id events then put session_id true events else events

-- `report_slice_outcome` behind the response.
unfoldable pub record_response :
    SliceLeaseCoordinator → SliceLease → SliceOutcomeResponse → SliceLeaseCoordinator
record_response c lease response =
    let session_id = lease.task.session_id in
    let reports = get_or (get session_id c.session_reports) [] ++ response ∷ [] in
    let total = get_or (get session_id c.session_total_slices) 0 in
    record c {
      session_reports = put session_id reports c.session_reports;
      session_events =
          if leb total (length reports)
          then set_event session_id c.session_events
          else c.session_events;
    }

-- Behind the look-up of the lease: it is gone when the entries are read, and where one does not fit, the
-- call raises, which is none.
unfoldable pub accept_report :
    SliceLeaseCoordinator → SliceReportPayload → SliceLease → SliceLeaseCoordinator × Option Bool
unfolding record_response
accept_report c report lease =
    let c' : SliceLeaseCoordinator = record c {
      active_leases = del report.lease_id c.active_leases;
    } in
    elim (outcome_response report lease.task) [
      | none ↦ (c', none)
      | some response ↦ (record_response c' lease response, some true)
    ]

unfoldable pub report_slice_outcome :
    SliceLeaseCoordinator → SliceReportPayload → SliceLeaseCoordinator × Option Bool
unfolding accept_report
report_slice_outcome c report = elim (get report.lease_id c.active_leases) [
  | none ↦ (c, some false)
  | some lease ↦ accept_report c report lease
]

-- The identifiers of the expired leases.
unfoldable pub expired_ids : ℕ → Dict SliceLease → List ℕ
unfolding is_expired
expired_ids now [] = []
expired_ids now ((l_id, l) ∷ leases) =
    if is_expired now l then l_id ∷ expired_ids now leases else expired_ids now leases

-- The loop over them: each lease goes, and its task goes to the front of the queue. (An identifier
-- that is not there would be a KeyError; those of `expired_ids` are there.)
unfoldable pub reclaim_one : ℕ → SliceLeaseCoordinator → SliceLeaseCoordinator
reclaim_one l_id c = elim (get l_id c.active_leases) [
  | none ↦ c
  | some lease ↦ record c {
    active_leases = del l_id c.active_leases;
    pending_tasks = lease.task ∷ c.pending_tasks;
  }
]

unfoldable pub reclaim_all : List ℕ → SliceLeaseCoordinator → SliceLeaseCoordinator
unfolding reclaim_one
reclaim_all [] c = c
reclaim_all (l_id ∷ l_ids) c = reclaim_all l_ids (reclaim_one l_id c)

unfoldable pub reclaim_expired_leases : SliceLeaseCoordinator → ℕ → SliceLeaseCoordinator × List ℕ
unfolding expired_ids reclaim_all
reclaim_expired_leases c now =
    let l_ids = expired_ids now c.active_leases in (reclaim_all l_ids c, l_ids)

unfoldable pub get_session_reports : SliceLeaseCoordinator → ℕ → List SliceOutcomeResponse
get_session_reports c session_id = get_or (get session_id c.session_reports) []
