-- ===== src/Leases/Reports.antt =====
-- lease_coordinator.py, report_slice_outcome: the records that a report is turned into.
use Prim.Native.String.{String}
use hexaqueue.Prelude.{
  ℕ, zero, ◌>>=◌, Bool, true, false, Option, none, some, List, [], ◌∷◌, map, if◌then◌else◌, ◌==◌,
}
use hexaqueue.Prelude.Int.{ℤ, pos, negsuc}
use hexaqueue.Leases.Model.{
  SliceTaskDescriptor, SliceReportPayload, Value, null, text, number, compound, OutcomeEntry,
  CoverageData, object_key, TestOutcomeRecord, SliceOutcomeResponse,
}

-- `o.get(key) or b` as a field of a text or None: an absent or empty value gives way to `b`; another value
-- that is no text is a ValidationError, none.
abbrev pub or_text : Option Value → Option String → Option (Option String)
or_text none b = some b
or_text (some null) b = some b
or_text (some (text String.[] _)) b = some b
or_text (some (text (String.◌∷◌ c s) _)) b = some (some (String.◌∷◌ c s))
or_text (some (number (pos zero))) b = some b
or_text (some (number _)) b = none
or_text (some (compound true)) b = some b
or_text (some (compound false)) b = none

-- `o.get(key, default)` as a field of a text.
abbrev pub text_or : Option Value → String → Option String
text_or none d = some d
text_or (some (text s _)) d = some s
text_or (some _) d = none

abbrev non_negative : ℤ → Option ℕ
non_negative (pos n) = some n
non_negative (negsuc n) = none

-- `float(v)` as a field that is not negative.
abbrev pub duration_of : Option Value → Option ℕ
duration_of none = some 0
duration_of (some (number z)) = non_negative z
duration_of (some (text _ (some z))) = non_negative z
duration_of (some _) = none

abbrev pub is_pass : SliceReportPayload → Bool
is_pass r = elim r.exit_code [ pos n ↦ n == 0 | negsuc _ ↦ false ]

abbrev pub default_outcome : SliceReportPayload → String
default_outcome r = if is_pass r then "passed" else "failed"

abbrev make_record :
    ℕ → Option String → String → String → Option String → Option String → TestOutcomeRecord
make_record duration_seconds longrepr nodeid outcome stderr stdout = record {
  duration_seconds = duration_seconds;
  longrepr = longrepr;
  nodeid = nodeid;
  outcome = outcome;
  stderr = stderr;
  stdout = stdout;
}

abbrev or_else : Option Value → Option Value → Option Value
or_else none v = v
or_else (some v) _ = some v

-- None is the error of a value that does not fit its field.
unfoldable pub outcome_record : SliceReportPayload → OutcomeEntry → Option TestOutcomeRecord
outcome_record r o = do
  nodeid ← text_or o.nodeid "unknown"
  outcome ← text_or o.outcome (default_outcome r)
  duration_seconds ← duration_of (or_else o.duration_seconds o.duration)
  stdout ← or_text o.stdout r.stdout
  stderr ← or_text o.stderr r.stderr
  longrepr ← or_text o.longrepr r.error_message
  some (make_record duration_seconds longrepr nodeid outcome stderr stdout)

unfoldable pub default_record : SliceReportPayload → String → TestOutcomeRecord
default_record r nid = record {
  duration_seconds = r.duration_seconds;
  longrepr = r.error_message;
  nodeid = nid;
  outcome = default_outcome r;
  stderr = r.stderr;
  stdout = r.stdout;
}

-- The loop over the entries of the report.
unfoldable pub read_outcomes :
    SliceReportPayload → List OutcomeEntry → Option (List TestOutcomeRecord)
unfolding outcome_record
read_outcomes r [] = some []
read_outcomes r (o ∷ os) = do some ((← outcome_record r o) ∷ (← read_outcomes r os))

-- `if not outcomes`: a report with no entries stands for all tests of the slice.
unfoldable pub outcome_records :
    SliceReportPayload → SliceTaskDescriptor → Option (List TestOutcomeRecord)
unfolding read_outcomes default_record
outcome_records r task = elim r.outcomes [
  | [] ↦ some (map (default_record r) task.test_nodeids)
  | o ∷ os ↦ read_outcomes r (o ∷ os)
]

abbrev pub coverage_of_key : Option String → Option CoverageData
coverage_of_key key = elim key [
  | none ↦ none
  | some String.[] ↦ none
  | some (String.◌∷◌ c s) ↦ some (object_key (String.◌∷◌ c s))
]

unfoldable pub coverage_of : SliceReportPayload → Option CoverageData
coverage_of r = elim r.coverage_data [
  | none ↦ coverage_of_key r.coverage_object_key
  | some d ↦ some d
]

abbrev pub make_response :
    SliceReportPayload → SliceTaskDescriptor → List TestOutcomeRecord → SliceOutcomeResponse
make_response r task outcomes = record {
  coverage_data = coverage_of r;
  duration_seconds = r.duration_seconds;
  is_free_tier = true;
  outcomes = outcomes;
  provider = "oci_worker_pool";
  slice_id = r.slice_id;
  slice_index = task.slice_index;
  worker_id = r.worker_id;
}

unfoldable pub outcome_response :
    SliceReportPayload → SliceTaskDescriptor → Option SliceOutcomeResponse
unfolding outcome_records coverage_of
outcome_response r task =
    outcome_records r task >>= λ outcomes. some (make_response r task outcomes)
