-- ===== src/Index/Records/Examples.antt =====
-- The redelivery of a validation record, at concrete records.
use node_vault.Base.{◌≡◌, refl, true, false, none, pos, [], ◌∷◌, find_first}
use node_vault.Index.Schema.{ToolCheckRecord, IndexFile}
use node_vault.Index.Errors.{ok, err, record_conflict}
use node_vault.Index.Requests.{Outcome, apply_validation_correlation}
use node_vault.Index.Requests.Graph.{request_at}
use node_vault.Index.Records.{
  Fingerprint, check_fields, append_check, append_tool_check_record_correlated,
  get_tool_check_record_by_id,
}
use node_vault.Index.Records.Redelivery.{received, taken, append_tool_check_record_correlated_lem}
use node_vault.Index.Samples.{request, requests_of}

abbrev check : ToolCheckRecord
check = record {
  check_id = "check-1";
  tool_spec_digest = "spec-1";
  image_digest = "sha256:1";
  platform = "linux/amd64";
  tool_name = "bwa";
  version = "1";
  validation_request_id = "req-1";
  sentinel_job_id = "job-1";
  stage = "functional";
  terminal = true;
  validation_status = "Succeeded";
  validation_hash = "hash";
  command = "bwa";
  exit_code = pos 0;
  observed_io_profile = none;
  observed_resource_profile = none;
  contract_check = none;
  failure_kind = "";
  failure_code = "";
  retryable = false;
  failure_reason = "";
  checked_at = 0;
}

-- A fingerprint of the status alone.
abbrev by_status : Fingerprint
by_status = record { check = λ r. r.validation_status; scan = λ r. r.policy_result }

abbrev verdict : Outcome
verdict = record {
  request_id = "req-1";
  job_id = "job-1";
  terminal = true;
  succeeded = true;
  reason = "";
}

-- The index that the first delivery makes.
abbrev accepted : IndexFile
unfolding apply_validation_correlation
accepted =
    apply_validation_correlation 9 verdict
      (record (requests_of (request ∷ [])) { tool_check_records = received 9 check ∷ [] })

append_tool_check_record_correlated_lem_example :
    (get_tool_check_record_by_id "check-1" accepted ≡ ok (received 9 check))
    × (request_at "req-1" accepted
        ≡ taken "req-1" 9 verdict (request_at "req-1" (requests_of (request ∷ []))))
    × (append_tool_check_record_correlated by_status 10
          (record check { validation_status = "Failed" })
          verdict
          accepted
        ≡ err record_conflict)
unfolding append_tool_check_record_correlated append_check find_first accepted check_fields
append_tool_check_record_correlated_lem_example =
    append_tool_check_record_correlated_lem by_status 9 check verdict (requests_of (request ∷ []))
      "req-1" 10 (record check { validation_status = "Failed" }) verdict refl refl refl
