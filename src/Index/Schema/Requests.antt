-- ===== src/Index/Schema/Requests.antt =====
-- pkg/index/schema.go: the validation requests that NodeVault sends to NodeSentinel.
use node_vault.Base.{ℕ, Time, String, List, Bool, true, false}

pub data ValidationStatus : Type 0 where
  unset enqueue_pending queued running succeeded failed : ValidationStatus
  unavailable interrupted enqueue_abandoned : ValidationStatus

pub record ValidationRequestRecord : Type 0 where
  pub validation_request_id : String
  pub build_id : String
  pub cas_hash : String
  pub image_digest : String
  pub tool_spec_digest : String
  pub sentinel_job_id : String
  pub validation_status : ValidationStatus
  pub failure_reason : String
  pub artifact_kind : String
  pub image_repository : String
  pub tool_name : String
  pub version : String
  pub requested_actions : List String
  pub enqueue_attempts : ℕ
  pub next_attempt_at : Time
  pub requested_at : Time
  pub queued_at : Time
  pub completed_at : Time

abbrev pub status_eq : ValidationStatus → ValidationStatus → Bool
status_eq ValidationStatus.unset ValidationStatus.unset = true
status_eq ValidationStatus.enqueue_pending ValidationStatus.enqueue_pending = true
status_eq ValidationStatus.queued ValidationStatus.queued = true
status_eq ValidationStatus.running ValidationStatus.running = true
status_eq ValidationStatus.succeeded ValidationStatus.succeeded = true
status_eq ValidationStatus.failed ValidationStatus.failed = true
status_eq ValidationStatus.unavailable ValidationStatus.unavailable = true
status_eq ValidationStatus.interrupted ValidationStatus.interrupted = true
status_eq ValidationStatus.enqueue_abandoned ValidationStatus.enqueue_abandoned = true
status_eq _ _ = false
