-- ===== src/Leases/Model.antt =====
-- lease.py. Texts that are only compared (identifiers, addresses, images) are numbers; the texts that
-- the coordinator tests for emptiness or fills in are strings. Inline coverage data is a number.
use Prim.Native.String.{String}
use hexaqueue.Prelude.{ℕ, ◌+◌, Bool, Option, List, ltb}
use hexaqueue.Prelude.Int.{ℤ}

pub data SliceLeaseState : Type 0 where
  pending leased completed failed expired : SliceLeaseState

pub record WorkerRegistration : Type 0 where
  pub hostname : Option ℕ
  pub ip_address : Option ℕ
  pub labels : List (ℕ × ℕ)
  pub memory_mb : ℕ
  pub ocpus : ℕ
  pub registered_at : ℕ
  pub worker_id : ℕ

pub record SliceTaskDescriptor : Type 0 where
  pub collateral_download_url : Option ℕ
  pub collateral_id : Option ℕ
  pub container : Bool
  pub container_image : Option ℕ
  pub coverage_sources : Option (List ℕ)
  pub coverage_upload_url : Option ℕ
  pub created_at : ℕ
  pub session_id : ℕ
  pub slice_id : ℕ
  pub slice_index : ℕ
  pub test_nodeids : List String
  pub total_slices : ℕ

pub record SliceLease : Type 0 where
  pub expires_at : ℕ
  pub last_heartbeat_at : ℕ
  pub lease_id : ℕ
  pub leased_at : ℕ
  pub state : SliceLeaseState
  pub task : SliceTaskDescriptor
  pub worker_id : ℕ

-- `now > expires_at`, the clock an argument.
unfoldable pub is_expired : ℕ → SliceLease → Bool
is_expired now l = ltb l.expires_at now

unfoldable pub renew : SliceLease → ℕ → ℕ → SliceLease
renew l now extension_seconds = record l {
  expires_at = now + extension_seconds;
  last_heartbeat_at = now;
}

-- A value of `Any`, as JSON brings it: a text comes with the number that `float` reads in it, a Boolean is
-- the number 0 or 1, and of a list or a dictionary it is kept whether it is empty.
pub data Value : Type 0 where
  null : Value
  text : String → Option ℤ → Value
  number : ℤ → Value
  compound : Bool → Value

-- One entry of `outcomes`, a dictionary: the keys that the coordinator reads; none is a missing key.
pub record OutcomeEntry : Type 0 where
  pub nodeid : Option Value
  pub outcome : Option Value
  pub duration_seconds : Option Value
  pub duration : Option Value
  pub stdout : Option Value
  pub stderr : Option Value
  pub longrepr : Option Value

pub data CoverageData : Type 0 where
  inline_data : ℕ → CoverageData
  object_key : String → CoverageData

pub record SliceReportPayload : Type 0 where
  pub coverage_data : Option CoverageData
  pub coverage_object_key : Option String
  pub duration_seconds : ℕ
  pub error_message : Option String
  pub exit_code : ℤ
  pub lease_id : ℕ
  pub outcomes : List OutcomeEntry
  pub slice_id : ℕ
  pub stderr : Option String
  pub stdout : Option String
  pub worker_id : ℕ

pub record TestOutcomeRecord : Type 0 where
  pub duration_seconds : ℕ
  pub longrepr : Option String
  pub nodeid : String
  pub outcome : String
  pub stderr : Option String
  pub stdout : Option String

pub record SliceOutcomeResponse : Type 0 where
  pub coverage_data : Option CoverageData
  pub duration_seconds : ℕ
  pub is_free_tier : Bool
  pub outcomes : List TestOutcomeRecord
  pub provider : String
  pub slice_id : ℕ
  pub slice_index : ℕ
  pub worker_id : ℕ

pub record TestSliceDispatch : Type 0 where
  pub slice_id : ℕ
  pub slice_index : ℕ
  pub total_slices : ℕ
  pub test_nodeids : List String
  pub total_estimated_duration : ℕ
