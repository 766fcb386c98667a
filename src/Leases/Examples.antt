-- ===== src/Leases/Examples.antt =====
-- A session of two slices, one lost worker and one late report, on which the theorems are applied.
use mathlib.Core.List.{reverse}
use hexaqueue.Prelude.{ℕ, ◌≡◌, refl, true, false, not, none, some, List, [], ◌∷◌, ◌++◌, map, arith}
use hexaqueue.Prelude.Int.{pos, negsuc}
use hexaqueue.Prelude.Lists.{filter}
use hexaqueue.Prelude.Dict.{get}
use hexaqueue.Leases.Model.{
  number, SliceTaskDescriptor, renew, is_expired, SliceReportPayload, TestSliceDispatch,
}
use hexaqueue.Leases.Reports.{outcome_response, read_outcomes}
use hexaqueue.Leases.Coordinator.{
  SliceLeaseCoordinator, make_coordinator, enqueue_session_slices, lease_slice, expired_ids,
  report_slice_outcome, accept_report, reclaim_expired_leases, make_lease, record_heartbeat,
}
use hexaqueue.Leases.Accounted.{IsAccounted, outstanding}
use hexaqueue.Leases.Reclaim.{reclaim_expired_leases-eq}
use hexaqueue.Leases.Renewal.{heartbeat_keeps}
use hexaqueue.Leases.Sessions.{
  Submission, made_by, submit, step, Call, leases, reports, reclaims, run, AllFresh,
  session-IsAccounted,
}

abbrev slice_of : ℕ → TestSliceDispatch
slice_of id = record {
  slice_id = id;
  slice_index = id;
  total_slices = 2;
  test_nodeids = "tests/test_a.py::test_a" ∷ [];
  total_estimated_duration = 10;
}

abbrev two_slices : Submission
two_slices = record {
  session = 5;
  slices = slice_of 0 ∷ slice_of 1 ∷ [];
  collateral = none;
  download = λ _. none;
  upload = λ _. none;
  sources = none;
  container = false;
  image = none;
}

abbrev report_of : ℕ → SliceReportPayload
report_of lease_id = record {
  coverage_data = none;
  coverage_object_key = none;
  duration_seconds = 8;
  error_message = none;
  exit_code = pos 0;
  lease_id = lease_id;
  outcomes = [];
  slice_id = 0;
  stderr = none;
  stdout = none;
  worker_id = 2;
}

-- The first lease expires, its slice is leased again, and the first worker reports too late.
abbrev some_calls : List Call
some_calls =
    leases 2 11 100
    ∷ reclaims 200
    ∷ leases 3 12 201
    ∷ reports (report_of 11)
    ∷ reports (report_of 12)
    ∷ []

abbrev start : SliceLeaseCoordinator
start = make_coordinator 60

fresh_calls : AllFresh 5 (submit start 90 two_slices) some_calls
unfolding submit enqueue_session_slices step lease_slice reclaim_expired_leases read_outcomes
fresh_calls = (refl, (tt, (refl, (refl, (refl, tt)))))

session-IsAccounted_example :
    IsAccounted 5 (made_by 90 two_slices) (run (submit start 90 two_slices) some_calls)
session-IsAccounted_example =
    session-IsAccounted start 90 two_slices some_calls (λ f. refl) fresh_calls

-- A report with a negative duration of a test.
abbrev bad_report : SliceReportPayload
bad_report = record (report_of 11) {
  outcomes =
      record {
        nodeid = none;
        outcome = none;
        duration_seconds = some (number (negsuc 0));
        duration = none;
        stdout = none;
        stderr = none;
        longrepr = none;
      }
      ∷ [];
}

abbrev after_bad_report : SliceLeaseCoordinator
after_bad_report =
    run (submit start 90 two_slices) (leases 2 11 100 ∷ reports bad_report ∷ reclaims 900 ∷ [])

-- Its slice is lost: of the two one waits, none is leased, and nothing has been reported.
slice_lost :
    (outstanding 5 (λ _. 1) after_bad_report ≡ 1)
    × (get 5 after_bad_report.session_reports ≡ some [])
unfolding run submit enqueue_session_slices step lease_slice report_slice_outcome accept_report
    outcome_response reclaim_expired_leases
slice_lost = (refl, refl)

abbrev some_task : SliceTaskDescriptor
some_task = record {
  collateral_download_url = none;
  collateral_id = none;
  container = false;
  container_image = none;
  coverage_sources = none;
  coverage_upload_url = none;
  created_at = 90;
  session_id = 5;
  slice_id = 0;
  slice_index = 0;
  test_nodeids = [];
  total_slices = 1;
}

-- One lease has expired at 100, the other has not.
abbrev two_leases : SliceLeaseCoordinator
two_leases = record start {
  active_leases =
      (11, make_lease start 2 11 20 some_task) ∷ (12, make_lease start 3 12 90 some_task) ∷ [];
}

reclaim_expired_leases-eq_example : reclaim_expired_leases two_leases 100 ≡ (
  record two_leases {
    active_leases = filter (λ e. not (is_expired 100 e.1)) two_leases.active_leases;
    pending_tasks =
        reverse (map (λ e. e.1.task) (filter (λ e. is_expired 100 e.1) two_leases.active_leases))
        ++ two_leases.pending_tasks;
  },
  expired_ids 100 two_leases.active_leases,
)
reclaim_expired_leases-eq_example = reclaim_expired_leases-eq two_leases 100 (refl, (refl, tt))

abbrev known_workers : SliceLeaseCoordinator
known_workers = record two_leases {
  registered_workers =
      (
        3,
        record {
          hostname = none;
          ip_address = none;
          labels = [];
          memory_mb = 1024;
          ocpus = 1;
          registered_at = 1;
          worker_id = 3;
        },
      )
      ∷ [];
}

heartbeat_keeps_example :
    get 12
      (reclaim_expired_leases
        (record_heartbeat known_workers 3 120 (some (12 ∷ []))).0
        180).0.active_leases
    ≡ some (renew (make_lease start 3 12 90 some_task) 120 60)
heartbeat_keeps_example =
    heartbeat_keeps known_workers 3 120 180 12 (12 ∷ []) (make_lease start 3 12 90 some_task)
      (refl, (refl, tt)) refl refl refl refl (omega arith)

over_at_100 : is_expired 100 (make_lease start 2 11 20 some_task) ≡ true
unfolding is_expired
over_at_100 = refl
