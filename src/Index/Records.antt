-- ===== src/Index/Records.antt =====
-- pkg/index/store.go, the ToolCheckRecords and ToolScanRecords: appends that tell a redelivery from a
-- conflict, alone or with the correlation of the request, in one save.
pub mod Redelivery
mod Examples
use node_vault.Base.{
  ℤ, Time, String, Bool, Option, none, some, List, ◌==◌, is_empty, or_now, find_first, keep, snoc,
  if◌then◌else◌,
}
use node_vault.Index.Schema.{
  IndexFile, ToolCheckRecord, ToolScanRecord, ObservedIoProfile, ObservedResourceProfile,
  ContractCheck,
}
use node_vault.Index.Errors.{Result, ok, err, ◌>>=◌, empty_key, duplicate_record, record_conflict}
use node_vault.Index.Sections.{or_not_found}
use node_vault.Index.Requests.{Outcome, apply_validation_correlation}

-- `checkRecordFingerprintFields`
pub record CheckRecordFingerprintFields : Type 0 where
  pub tool_spec_digest : String
  pub image_digest : String
  pub platform : String
  pub tool_name : String
  pub version : String
  pub validation_request_id : String
  pub sentinel_job_id : String
  pub stage : String
  pub terminal : Bool
  pub validation_status : String
  pub validation_hash : String
  pub command : String
  pub exit_code : ℤ
  pub observed_io_profile : Option ObservedIoProfile
  pub observed_resource_profile : Option ObservedResourceProfile
  pub contract_check : Option ContractCheck
  pub failure_kind : String
  pub failure_code : String
  pub retryable : Bool
  pub failure_reason : String

unfoldable pub check_fields : ToolCheckRecord → CheckRecordFingerprintFields
check_fields r = record {
  tool_spec_digest = r.tool_spec_digest;
  image_digest = r.image_digest;
  platform = r.platform;
  tool_name = r.tool_name;
  version = r.version;
  validation_request_id = r.validation_request_id;
  sentinel_job_id = r.sentinel_job_id;
  stage = r.stage;
  terminal = r.terminal;
  validation_status = r.validation_status;
  validation_hash = r.validation_hash;
  command = r.command;
  exit_code = r.exit_code;
  observed_io_profile = r.observed_io_profile;
  observed_resource_profile = r.observed_resource_profile;
  contract_check = r.contract_check;
  failure_kind = r.failure_kind;
  failure_code = r.failure_code;
  retryable = r.retryable;
  failure_reason = r.failure_reason;
}

-- `scanRecordFingerprintFields`
pub record ScanRecordFingerprintFields : Type 0 where
  pub image_digest : String
  pub tool_name : String
  pub platform : String
  pub validation_request_id : String
  pub sentinel_job_id : String
  pub stage : String
  pub terminal : Bool
  pub scanner : String
  pub scanner_version : String
  pub db_digest : String
  pub source : String
  pub critical_count : ℤ
  pub high_count : ℤ
  pub medium_count : ℤ
  pub low_count : ℤ
  pub policy_mode : String
  pub policy_result : String

unfoldable pub scan_fields : ToolScanRecord → ScanRecordFingerprintFields
scan_fields r = record {
  image_digest = r.image_digest;
  tool_name = r.tool_name;
  platform = r.platform;
  validation_request_id = r.validation_request_id;
  sentinel_job_id = r.sentinel_job_id;
  stage = r.stage;
  terminal = r.terminal;
  scanner = r.scanner;
  scanner_version = r.scanner_version;
  db_digest = r.db_digest;
  source = r.source;
  critical_count = r.critical_count;
  high_count = r.high_count;
  medium_count = r.medium_count;
  low_count = r.low_count;
  policy_mode = r.policy_mode;
  policy_result = r.policy_result;
}

-- The SHA-256 of the JSON of the fields, which the source only calls.
pub record Fingerprint : Type 0 where
  pub check : CheckRecordFingerprintFields → String
  pub scan : ScanRecordFingerprintFields → String

abbrev pub has_check : String → ToolCheckRecord → Bool
has_check id r = r.check_id == id

abbrev pub has_scan : String → ToolScanRecord → Bool
has_scan id r = r.scan_id == id

abbrev with_check : IndexFile → ToolCheckRecord → IndexFile
with_check f r = record f { tool_check_records = snoc f.tool_check_records r }

abbrev with_scan : IndexFile → ToolScanRecord → IndexFile
with_scan f r = record f { tool_scan_records = snoc f.tool_scan_records r }

-- `appendToolCheckRecordLocked`
unfoldable pub append_check : Fingerprint → Time → ToolCheckRecord → IndexFile → Result IndexFile
append_check h now r f =
    if is_empty r.check_id
    then err empty_key
    else elim (find_first (has_check r.check_id) f.tool_check_records) [
      | none ↦ ok (with_check f (record r { checked_at = or_now now r.checked_at }))
      | some old ↦
          if h.check (check_fields old) == h.check (check_fields r)
          then err duplicate_record
          else err record_conflict
    ]

-- `appendToolScanRecordLocked`
unfoldable pub append_scan : Fingerprint → Time → ToolScanRecord → IndexFile → Result IndexFile
append_scan h now r f =
    if is_empty r.scan_id
    then err empty_key
    else elim (find_first (has_scan r.scan_id) f.tool_scan_records) [
      | none ↦ ok (with_scan f (record r { scanned_at = or_now now r.scanned_at }))
      | some old ↦
          if h.scan (scan_fields old) == h.scan (scan_fields r)
          then err duplicate_record
          else err record_conflict
    ]

unfoldable pub append_tool_check_record :
    Fingerprint → Time → ToolCheckRecord → IndexFile → Result (Unit {0} × IndexFile)
append_tool_check_record h now r f = do f' ← append_check h now r f; ok (tt, f')

unfoldable pub append_tool_scan_record :
    Fingerprint → Time → ToolScanRecord → IndexFile → Result (Unit {0} × IndexFile)
append_tool_scan_record h now r f = do f' ← append_scan h now r f; ok (tt, f')

-- The record and the request change together: `commit` saves them in one write.
unfoldable pub append_tool_check_record_correlated :
    Fingerprint → Time → ToolCheckRecord → Outcome → IndexFile → Result (Unit {0} × IndexFile)
append_tool_check_record_correlated h now r o f = do
  f' ← append_check h now r f
  ok (tt, apply_validation_correlation now o f')

-- A scan has no failure reason of its own.
unfoldable pub append_tool_scan_record_correlated :
    Fingerprint → Time → ToolScanRecord → Outcome → IndexFile → Result (Unit {0} × IndexFile)
append_tool_scan_record_correlated h now r o f = do
  f' ← append_scan h now r f
  ok (tt, apply_validation_correlation now (record o { reason = "" }) f')

unfoldable pub get_tool_check_record_by_id : String → IndexFile → Result ToolCheckRecord
get_tool_check_record_by_id id f = or_not_found (find_first (has_check id) f.tool_check_records)

unfoldable pub get_tool_scan_record_by_id : String → IndexFile → Result ToolScanRecord
get_tool_scan_record_by_id id f = or_not_found (find_first (has_scan id) f.tool_scan_records)

unfoldable pub list_tool_check_records_by_image_digest : String → IndexFile → List ToolCheckRecord
list_tool_check_records_by_image_digest digest f =
    keep (λ r. r.image_digest == digest) f.tool_check_records

unfoldable pub list_tool_scan_records_by_image_digest : String → IndexFile → List ToolScanRecord
list_tool_scan_records_by_image_digest digest f =
    keep (λ r. r.image_digest == digest) f.tool_scan_records
