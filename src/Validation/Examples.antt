-- ===== src/Validation/Examples.antt =====
-- Records as they come over gRPC.
use node_vault.Base.{◌+◌, ◌*◌, ◌≤◌, ◌<◌, ◌≡◌, refl, ◌⊎◌, pos, negsuc, true, none, some, [], arith}
use node_vault.Index.Schema.{empty_index}
use node_vault.Index.Records.{Fingerprint}
use node_vault.Certification.{Saved}
use node_vault.Validation.Messages.{ToolCheckRecordRequest}
use node_vault.Validation.{Push, Cuts, recorded_at, unix_epoch, submit_tool_check_record}
use node_vault.Validation.Timestamps.{recorded_at-bounds}
use node_vault.Validation.Pending.{IsPending, submit_tool_check_record-IsPending}

abbrev request : ToolCheckRecordRequest
request = record {
  check_id = "check-1";
  tool_spec_digest = "spec-1";
  image_digest = "sha256:1";
  platform = "linux/amd64";
  tool_name = "bwa";
  version = "1";
  validation_status = "succeeded";
  validation_hash = "hash";
  command = "bwa";
  exit_code = pos 0;
  observed_io_profile = none;
  observed_resource_profile = none;
  contract_check = some (record { all_outputs_present = true; result = "pass" });
  failure_reason = "";
  checked_at = pos 0;
}

abbrev by_status : Fingerprint
by_status = record { check = λ r. r.validation_status; scan = λ r. r.policy_result }

abbrev no_push : Push
no_push repo rec cas = none

abbrev whole : Cuts
whole = record { last_index = λ s t. negsuc 0; before_index = λ s i. s }

abbrev empty_store : Saved
empty_store = record { index = empty_index; failing = [] }

submit_tool_check_record-IsPending_example :
    IsPending empty_index (submit_tool_check_record by_status no_push whole 9 request empty_store)
submit_tool_check_record-IsPending_example =
    submit_tool_check_record-IsPending by_status no_push whole 9 request empty_store

recorded_at-bounds_example :
    ((1700000000000 ≤ 9223372036854)
      × (recorded_at 9 (pos 1700000000000) ≡ unix_epoch + 1700000000000 * 1000000))
    ⊎ ((9223372036854 < 1700000000000)
        × (recorded_at 9 (pos 1700000000000) < unix_epoch + 1700000000000 * 1000000))
recorded_at-bounds_example = recorded_at-bounds 9 1700000000000 (omega arith) (omega arith)

-- The first millisecond that is accepted and overflows: it is recorded in the year 1677.
overflowing_time : recorded_at 9 (pos 9223372036855) ≡ 52912224763145448384
unfolding recorded_at
overflowing_time = refl
