-- ===== src/Certification/Examples.antt =====
-- Certifications of concrete records.
use node_vault.Base.{
  ◌≡◌, refl, String, true, false, none, some, pos, List, [], ◌∷◌, find_first, keep,
}
use node_vault.Index.Schema.{
  ToolCheckRecord, ToolScanRecord, CertifiedToolImageRecord, PromotionStatus, empty_index,
}
use node_vault.Index.Records.{get_tool_check_record_by_id, get_tool_scan_record_by_id}
use node_vault.Index.Certified.{
  upsert_certified_tool_image_record, upsert_first, same_certified_tool_key,
  list_certified_tool_image_records,
}
use node_vault.Certification.{
  Saved, save, is_admissible, evaluate_after_check, evaluate_after_scan, is_proven,
}
use node_vault.Certification.Retraction.{retract_certifications, retract_unproven_certifications}
use node_vault.Certification.Provable.{
  AllProvable, evaluate_after_check-AllProvable, evaluate_after_scan-AllProvable,
}
use node_vault.Certification.AfterRetraction.{retract_unproven_certifications-AllProvable}

abbrev check : ToolCheckRecord
check = record {
  check_id = "check-1";
  tool_spec_digest = "spec-1";
  image_digest = "sha256:1";
  platform = "linux/amd64";
  tool_name = "bwa";
  version = "1";
  validation_request_id = "req-1";
  sentinel_job_id = "job-1";
  stage = "L5A";
  terminal = true;
  validation_status = "succeeded";
  validation_hash = "hash";
  command = "bwa";
  exit_code = pos 0;
  observed_io_profile = none;
  observed_resource_profile = none;
  contract_check = some (record { all_outputs_present = true; result = "pass" });
  failure_kind = "";
  failure_code = "";
  retryable = false;
  failure_reason = "";
  checked_at = 3;
}

abbrev scan : ToolScanRecord
scan = record {
  scan_id = "scan-1";
  image_digest = "sha256:1";
  tool_name = "bwa";
  platform = "linux/amd64";
  validation_request_id = "req-1";
  sentinel_job_id = "job-1";
  stage = "L5B";
  terminal = true;
  scanner = "trivy";
  scanner_version = "1";
  db_digest = "";
  source = "";
  critical_count = pos 0;
  high_count = pos 0;
  medium_count = pos 0;
  low_count = pos 0;
  policy_mode = "enforce";
  policy_result = "pass";
  scanned_at = 4;
}

abbrev certification : String → String → CertifiedToolImageRecord
certification spec check_id = record {
  image_digest = "sha256:1";
  tool_spec_digest = spec;
  platform = "linux/amd64";
  tool_name = "bwa";
  version = "1";
  cas_hash = "";
  promotion_status = PromotionStatus.active;
  certified_at = 5;
  check_id = check_id;
  scan_id = "";
}

-- The check and the scan are stored; nothing is certified, and no save fails.
abbrev stored : List CertifiedToolImageRecord → Saved
stored certs = record {
  index = record empty_index {
    tool_check_records = check ∷ [];
    tool_scan_records = scan ∷ [];
    certified_tool_image_records = certs;
  };
  failing = [];
}

evaluate_after_check-AllProvable_example :
    AllProvable (evaluate_after_check 9 check (stored [])).1.index
unfolding get_tool_check_record_by_id find_first
evaluate_after_check-AllProvable_example =
    evaluate_after_check-AllProvable 9 check (stored []) (refl, refl) tt

evaluate_after_scan-AllProvable_example :
    AllProvable (evaluate_after_scan 9 scan (stored [])).1.index
unfolding get_tool_check_record_by_id get_tool_scan_record_by_id find_first
evaluate_after_scan-AllProvable_example =
    evaluate_after_scan-AllProvable 9 scan (stored []) ((refl, refl), tt) refl refl tt

-- One certification is proven by the check, the other by nothing.
abbrev two : List CertifiedToolImageRecord
two = certification "spec-1" "check-1" ∷ (certification "spec-2" "check-0" ∷ [])

retract_unproven_certifications-AllProvable_example :
    AllProvable (retract_unproven_certifications 9 (stored two)).1.index
unfolding retract_unproven_certifications retract_certifications list_certified_tool_image_records
    keep is_proven get_tool_check_record_by_id find_first is_admissible save
    upsert_certified_tool_image_record upsert_first same_certified_tool_key
retract_unproven_certifications-AllProvable_example =
    retract_unproven_certifications-AllProvable 9 (stored two) 1 ((refl, tt), (tt, tt)) refl

-- A certification without a platform, of the image of another one: the retraction of the second
-- writes over the first, and leaves the second Active.
abbrev mixed : List CertifiedToolImageRecord
mixed =
    record (certification "" "check-1") { platform = "" } ∷ (certification "spec-2" "check-0" ∷ [])

retraction_of_mixed_keys :
    (retract_unproven_certifications 9 (stored mixed)).1.index.certified_tool_image_records
    ≡ record (certification "spec-2" "check-0") { promotion_status = PromotionStatus.retracted }
      ∷ (certification "spec-2" "check-0" ∷ [])
unfolding retract_unproven_certifications retract_certifications list_certified_tool_image_records
    keep is_proven get_tool_check_record_by_id find_first is_admissible save
    upsert_certified_tool_image_record upsert_first same_certified_tool_key
retraction_of_mixed_keys = refl
