-- ===== src/Index/Schema/Evidence.antt =====
-- pkg/index/schema.go: the validation records that NodeSentinel submits.
use node_vault.Base.{ℤ, Time, String, Bool, List, Option}

pub record PortObservation : Type 0 where
  pub port : String
  pub file_count : ℤ
  pub non_empty : Bool

pub record ObservedIoProfile : Type 0 where
  pub inputs : List PortObservation
  pub outputs : List PortObservation

pub record ObservedResourceProfile : Type 0 where
  pub peak_cpu_millicores : ℤ
  pub peak_memory_mib : ℤ
  pub duration_seconds : ℤ
  pub disk_read_mib : ℤ
  pub disk_write_mib : ℤ
  pub timeout : Bool
  pub timeout_seconds : ℤ

pub record ContractCheck : Type 0 where
  pub all_outputs_present : Bool
  pub result : String

pub record ToolCheckRecord : Type 0 where
  pub check_id : String
  pub tool_spec_digest : String
  pub image_digest : String
  pub platform : String
  pub tool_name : String
  pub version : String
  pub validation_request_id : String
  pub sentinel_job_id : String
  pub stage : String
  pub terminal : Bool
  pub validation_status : String
  pub validation_hash : String
  pub command : String
  pub exit_code : ℤ
  pub observed_io_profile : Option ObservedIoProfile
  pub observed_resource_profile : Option ObservedResourceProfile
  pub contract_check : Option ContractCheck
  pub failure_kind : String
  pub failure_code : String
  pub retryable : Bool
  pub failure_reason : String
  pub checked_at : Time

pub record ToolScanRecord : Type 0 where
  pub scan_id : String
  pub image_digest : String
  pub tool_name : String
  pub platform : String
  pub validation_request_id : String
  pub sentinel_job_id : String
  pub stage : String
  pub terminal : Bool
  pub scanner : String
  pub scanner_version : String
  pub db_digest : String
  pub source : String
  pub critical_count : ℤ
  pub high_count : ℤ
  pub medium_count : ℤ
  pub low_count : ℤ
  pub policy_mode : String
  pub policy_result : String
  pub scanned_at : Time
