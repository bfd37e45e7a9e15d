-- ===== src/Validation/Messages.antt =====
-- protos/nodevault/v1/nodevault.proto: the messages of ValidationResultService.
use node_vault.Base.{ℤ, String, Option}
use node_vault.Index.Schema.{ObservedIoProfile, ObservedResourceProfile, ContractCheck}

-- `ToolCheckRecordRequest` and `ToolScanRecordRequest`: their times are int64 milliseconds.
pub record ToolCheckRecordRequest : Type 0 where
  pub check_id : String
  pub tool_spec_digest : String
  pub image_digest : String
  pub platform : String
  pub tool_name : String
  pub version : String
  pub validation_status : String
  pub validation_hash : String
  pub command : String
  pub exit_code : ℤ
  pub observed_io_profile : Option ObservedIoProfile
  pub observed_resource_profile : Option ObservedResourceProfile
  pub contract_check : Option ContractCheck
  pub failure_reason : String
  pub checked_at : ℤ

pub record ToolScanRecordRequest : Type 0 where
  pub scan_id : String
  pub image_digest : String
  pub tool_name : String
  pub platform : String
  pub scanner : String
  pub scanner_version : String
  pub db_digest : String
  pub source : String
  pub critical_count : ℤ
  pub high_count : ℤ
  pub medium_count : ℤ
  pub low_count : ℤ
  pub policy_mode : String
  pub policy_result : String
  pub scanned_at : ℤ

pub record SubmitRecordResponse : Type 0 where
  pub record_id : String
  pub certification_status : String
