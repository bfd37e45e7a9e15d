-- ===== src/Validation.antt =====
-- pkg/validation/service.go: the records that NodeSentinel submits over gRPC, their storage, and the
-- certification that they trigger. The referrer push of pkg/oras is a parameter, and the Store is its
-- index, whose saves may fail.
pub mod Messages
pub mod Timestamps
pub mod Pending
mod Examples
use Prim.Native.Nat.{◌%◌}
use node_vault.Base.{
  ℕ, ◌+◌, ◌-◌, ◌*◌, ℤ, pos, negsuc, Time, String, Bool, true, false, not, ◌&&◌, ◌||◌, Option, none,
  some, List, ◌==◌, is_empty, is_zero, ltb, leb, if◌then◌else◌, map,
}
use node_vault.Validation.Messages.{
  ToolCheckRecordRequest, ToolScanRecordRequest, SubmitRecordResponse,
}
use node_vault.Status.{Outcome, ok, fail, invalid_argument, internal}
use node_vault.Index.Schema.{
  ToolCheckRecord, ToolScanRecord, ObservedIoProfile, ObservedResourceProfile, ContractCheck, Entry,
  ToolProfileReferrer, ReferrerLifecycleStatus, PromotionStatus, ToolFunctionCatalogEntry,
  IndexFile,
}
use node_vault.Index.Errors.{Result}
use node_vault.Index.Errors as Errors
use node_vault.Index.Entries.{get_by_image_digest, record_tool_profile_referrer}
use node_vault.Index.Records.{Fingerprint, append_tool_check_record, append_tool_scan_record}
use node_vault.Index.Certified.{list_active_tool_function_catalog_entries}
use node_vault.Certification.{
  Saved, save, certifies_on_check, evaluate_after_check, evaluate_after_scan,
}

-- `checkedAtMaxMs`
abbrev pub checked_at_max_ms : ℕ
checked_at_max_ms = 253402300799999

abbrev pub in_range : ℤ → Bool
in_range (pos n) = leb n checked_at_max_ms
in_range (negsuc n) = false

-- 1970-01-01, in nanoseconds since the zero time.
abbrev pub unix_epoch : Time
unix_epoch = 62135596800000000000

-- `time.Unix(0, n)`, for the int64 whose bits are given.
abbrev pub unix_nanos : ℕ → Time
unix_nanos bits =
    if ltb bits 9223372036854775808
    then unix_epoch + bits
    else unix_epoch + bits - 18446744073709551616

-- The time of a record: zero is the server's, and the product of milliseconds is an int64.
unfoldable pub recorded_at : Time → ℤ → Time
recorded_at now (pos n) =
    if is_zero n then now else unix_nanos ((n * 1000000) % 18446744073709551616)
recorded_at now (negsuc n) = now

-- The record of the request; a stage and a terminal flag are not on this wire.
unfoldable pub check_record : Time → ToolCheckRecordRequest → ToolCheckRecord
unfolding recorded_at
check_record now req = record {
  check_id = req.check_id;
  tool_spec_digest = req.tool_spec_digest;
  image_digest = req.image_digest;
  platform = req.platform;
  tool_name = req.tool_name;
  version = req.version;
  validation_request_id = "";
  sentinel_job_id = "";
  stage = "";
  terminal = false;
  validation_status = req.validation_status;
  validation_hash = req.validation_hash;
  command = req.command;
  exit_code = req.exit_code;
  observed_io_profile = req.observed_io_profile;
  observed_resource_profile = req.observed_resource_profile;
  contract_check = req.contract_check;
  failure_kind = "";
  failure_code = "";
  retryable = false;
  failure_reason = req.failure_reason;
  checked_at = recorded_at now req.checked_at;
}

unfoldable pub scan_record : Time → ToolScanRecordRequest → ToolScanRecord
unfolding recorded_at
scan_record now req = record {
  scan_id = req.scan_id;
  image_digest = req.image_digest;
  tool_name = req.tool_name;
  platform = req.platform;
  validation_request_id = "";
  sentinel_job_id = "";
  stage = "";
  terminal = false;
  scanner = req.scanner;
  scanner_version = req.scanner_version;
  db_digest = req.db_digest;
  source = req.source;
  critical_count = req.critical_count;
  high_count = req.high_count;
  medium_count = req.medium_count;
  low_count = req.low_count;
  policy_mode = req.policy_mode;
  policy_result = req.policy_result;
  scanned_at = recorded_at now req.scanned_at;
}

-- `oras.PushToolProfileReferrer`: the digest of the referrer, `none` when the push fails.
abbrev pub Push : Type 0
Push = String → ToolCheckRecord → String → Option String

abbrev pub referrer_of : Time → ToolCheckRecord → String → ToolProfileReferrer
referrer_of now rec digest = record {
  digest = digest;
  validation_run_id = rec.check_id;
  validation_status = rec.validation_status;
  validated_at = rec.checked_at;
  observed_at = now;
  rank = 0;
  lifecycle_status = ReferrerLifecycleStatus.unset;
  gc_reason = "";
  marked_at = 0;
}

abbrev pub pushed : Time → ToolCheckRecord → Entry → Option String → Saved → Saved
unfolding save record_tool_profile_referrer
pushed now rec e none s = s
pushed now rec e (some digest) s =
    (save (record_tool_profile_referrer now e.cas_hash (referrer_of now rec digest)) s).1

-- What the code uses of `strings`: the last index of a text, -1 when it is not there, and the part of
-- a text before an index.
pub record Cuts : Type 0 where
  pub last_index : String → String → ℤ
  pub before_index : String → ℤ → String

abbrev pub is_after : ℤ → ℤ → Bool
is_after (pos i) (pos j) = ltb j i
is_after (pos i) (negsuc j) = true
is_after (negsuc i) (pos j) = false
is_after (negsuc i) (negsuc j) = ltb i j

-- `imageRepoFromRef`
unfoldable pub image_repo_from_ref : Cuts → String → String
image_repo_from_ref cuts ref =
    let i = cuts.last_index ref ":" in
    if is_after i (cuts.last_index ref "/") then cuts.before_index ref i else ref

-- `pushProfileReferrer`
unfoldable pub push_profile_referrer : Push → Cuts → Time → ToolCheckRecord → Saved → Saved
unfolding get_by_image_digest pushed image_repo_from_ref
push_profile_referrer push cuts now rec s =
    if not (rec.validation_status == "succeeded") || is_empty rec.validation_hash
    then s
    else elim (get_by_image_digest rec.image_digest s.index) [
      | Errors.err _ ↦ s
      | Errors.ok e ↦
          pushed now rec e (push (image_repo_from_ref cuts e.image_ref) rec e.cas_hash) s
    ]

abbrev pub check_status : ToolCheckRecord → Result (Unit {0}) → String
unfolding certifies_on_check
check_status rec (Errors.err _) = "failed"
check_status rec (Errors.ok _) = if certifies_on_check rec then "certified" else "pending"

-- The answer after the evaluation, whose failure is only told.
unfoldable pub answer_check :
    Push
    → Cuts
    → Time
    → ToolCheckRecord
    → Result (Unit {0}) × Saved
    → Outcome SubmitRecordResponse × Saved
unfolding push_profile_referrer check_status
answer_check push cuts now rec (evaluated, s) = (
  ok (record { record_id = rec.check_id; certification_status = check_status rec evaluated }),
  push_profile_referrer push cuts now rec s,
)

-- What follows the storage of a check.
unfoldable pub after_check :
    Push
    → Cuts
    → Time
    → ToolCheckRecord
    → Result (Unit {0}) × Saved
    → Outcome SubmitRecordResponse × Saved
unfolding evaluate_after_check answer_check
after_check push cuts now rec (Errors.err _, s) = (fail internal, s)
after_check push cuts now rec (Errors.ok _, s) =
    answer_check push cuts now rec (evaluate_after_check now rec s)

-- `SubmitToolCheckRecord`, with a store and a certification service.
unfoldable pub submit_tool_check_record :
    Fingerprint
    → Push
    → Cuts
    → Time
    → ToolCheckRecordRequest
    → Saved
    → Outcome SubmitRecordResponse × Saved
unfolding after_check save append_tool_check_record check_record
submit_tool_check_record h push cuts now req s =
    if is_empty req.check_id || is_empty req.image_digest
    then (fail invalid_argument, s)
    else if not (in_range req.checked_at)
    then (fail invalid_argument, s)
    else after_check push cuts now (check_record now req)
        (save (append_tool_check_record h now (check_record now req)) s)

abbrev pub after_scan :
    Time → ToolScanRecord → Result (Unit {0}) × Saved → Outcome SubmitRecordResponse × Saved
unfolding evaluate_after_scan
after_scan now rec (Errors.err _, s) = (fail internal, s)
after_scan now rec (Errors.ok _, s) = (
  ok (record { record_id = rec.scan_id; certification_status = "pending" }),
  (evaluate_after_scan now rec s).1,
)

-- `SubmitToolScanRecord`
unfoldable pub submit_tool_scan_record :
    Fingerprint → Time → ToolScanRecordRequest → Saved → Outcome SubmitRecordResponse × Saved
unfolding after_scan save append_tool_scan_record scan_record
submit_tool_scan_record h now req s =
    if is_empty req.scan_id || is_empty req.image_digest
    then (fail invalid_argument, s)
    else if not (in_range req.scanned_at)
    then (fail invalid_argument, s)
    else after_scan now (scan_record now req)
        (save (append_tool_scan_record h now (scan_record now req)) s)

abbrev pub filter_status : String → Option PromotionStatus
filter_status text =
    if is_empty text
    then some PromotionStatus.active
    else if text == "active"
    then some PromotionStatus.active
    else if text == "superseded"
    then some PromotionStatus.superseded
    else if text == "retracted"
    then some PromotionStatus.retracted
    else none

-- `ListCertifiedTools`, which answers with the fields of these entries.
unfoldable pub list_certified_tools : String → IndexFile → Outcome (List ToolFunctionCatalogEntry)
unfolding list_active_tool_function_catalog_entries
list_certified_tools status f = elim (filter_status status) [
  | none ↦ fail invalid_argument
  | some p ↦ ok (list_active_tool_function_catalog_entries p f)
]
