-- ===== src/Index/Requests.antt =====
-- pkg/index/store.go, the ValidationRequestRecords: their creation, their state graph, and the
-- correlation of a submitted result with the request that asked for it.
pub mod Graph
mod Examples
use node_vault.Base.{
  Time, String, Bool, true, false, not, Option, none, some, List, ◌==◌, is_empty, or_now,
  find_first, keep, if◌then◌else◌,
}
use node_vault.Index.Schema.{IndexFile, ValidationRequestRecord, ValidationStatus, status_eq}
use node_vault.Index.Errors.{Result, ok, err, ◌>>=◌, already_exists, invalid_transition}
use node_vault.Index.Sections.{append_new, update_first, or_not_found, kept}

abbrev pub request_key : ValidationRequestRecord → String
request_key r = r.validation_request_id

abbrev pub has_request : String → ValidationRequestRecord → Bool
has_request id r = request_key r == id

abbrev pub or_pending : ValidationStatus → ValidationStatus
or_pending ValidationStatus.unset = ValidationStatus.enqueue_pending
or_pending s = s

unfoldable pub create_validation_request_record :
    Time → ValidationRequestRecord → IndexFile → Result (Unit {0} × IndexFile)
create_validation_request_record now r f = do
  rs ←
      append_new (is_empty r.validation_request_id) (has_request r.validation_request_id)
        already_exists
        (record r {
          requested_at = or_now now r.requested_at;
          validation_status = or_pending r.validation_status;
        })
        f.validation_request_records
  ok (tt, record f { validation_request_records = rs })

unfoldable pub get_validation_request_record : String → IndexFile → Result ValidationRequestRecord
get_validation_request_record id f =
    or_not_found (find_first (has_request id) f.validation_request_records)

unfoldable pub list_validation_requests_by_status :
    ValidationStatus → IndexFile → List ValidationRequestRecord
list_validation_requests_by_status status f =
    keep (λ r. status_eq r.validation_status status) f.validation_request_records

-- `validValidationTransitions`, as a test for an edge.
unfoldable pub valid_validation_transition : ValidationStatus → ValidationStatus → Bool
valid_validation_transition ValidationStatus.enqueue_pending ValidationStatus.queued = true
valid_validation_transition ValidationStatus.enqueue_pending ValidationStatus.unavailable = true
valid_validation_transition ValidationStatus.enqueue_pending ValidationStatus.running = true
valid_validation_transition ValidationStatus.unavailable ValidationStatus.enqueue_pending = true
valid_validation_transition ValidationStatus.unavailable ValidationStatus.queued = true
valid_validation_transition ValidationStatus.unavailable ValidationStatus.running = true
valid_validation_transition ValidationStatus.unavailable ValidationStatus.enqueue_abandoned = true
valid_validation_transition ValidationStatus.queued ValidationStatus.running = true
valid_validation_transition ValidationStatus.queued ValidationStatus.failed = true
valid_validation_transition ValidationStatus.queued ValidationStatus.interrupted = true
valid_validation_transition ValidationStatus.running ValidationStatus.succeeded = true
valid_validation_transition ValidationStatus.running ValidationStatus.failed = true
valid_validation_transition ValidationStatus.running ValidationStatus.interrupted = true
valid_validation_transition _ _ = false

-- A callback on the record; a nil one is the identity.
abbrev pub Mutation : Type 0
Mutation = ValidationRequestRecord → ValidationRequestRecord

-- `transitionValidationRequestLocked`: the callback runs before the status is written.
unfoldable pub transition :
    ValidationStatus → Mutation → ValidationRequestRecord → Result ValidationRequestRecord
transition to mutate r =
    if valid_validation_transition r.validation_status to
    then ok (record (mutate r) { validation_status = to })
    else err invalid_transition

abbrev with_requests : IndexFile → List ValidationRequestRecord → Result (Unit {0} × IndexFile)
with_requests f rs = ok (tt, record f { validation_request_records = rs })

unfoldable pub transition_validation_request :
    String → ValidationStatus → Mutation → IndexFile → Result (Unit {0} × IndexFile)
transition_validation_request id to mutate f = do
  rs ← update_first (has_request id) (transition to mutate) f.validation_request_records
  with_requests f rs

-- The status is pinned across the callback.
unfoldable pub retry_state : Mutation → ValidationRequestRecord → Result ValidationRequestRecord
retry_state mutate r =
    if status_eq r.validation_status ValidationStatus.unavailable
    then ok (record (mutate r) { validation_status = r.validation_status })
    else err invalid_transition

unfoldable pub update_validation_request_retry_state :
    String → Mutation → IndexFile → Result (Unit {0} × IndexFile)
update_validation_request_retry_state id mutate f = do
  rs ← update_first (has_request id) (retry_state mutate) f.validation_request_records
  with_requests f rs

-- What a result says of the request that it answers.
pub record Outcome : Type 0 where
  pub request_id : String
  pub job_id : String
  pub terminal : Bool
  pub succeeded : Bool
  pub reason : String

-- A transition whose refusal is dropped.
abbrev pub attempt : ValidationStatus → Mutation → ValidationRequestRecord → ValidationRequestRecord
attempt to mutate r = elim (transition to mutate r) [ ok r' ↦ r' | err e ↦ r ]

abbrev pub note_job : String → Mutation
note_job job r = if is_empty job then r else record r { sentinel_job_id = job }

abbrev pub outcome_status : Bool → ValidationStatus
outcome_status true = ValidationStatus.succeeded
outcome_status false = ValidationStatus.failed

abbrev pub note_end : Time → Outcome → Mutation
note_end now o r = record r {
  completed_at = now;
  failure_reason = if o.succeeded then r.failure_reason else o.reason;
}

-- The promotion to Running, then for a terminal result the closing of the request.
unfoldable pub correlate : Time → Outcome → ValidationRequestRecord → ValidationRequestRecord
unfolding transition
correlate now o r =
    let running = attempt ValidationStatus.running (note_job o.job_id) r in
    if o.terminal then attempt (outcome_status o.succeeded) (note_end now o) running else running

-- `applyValidationCorrelationLocked`: an empty or unknown ID is passed over.
unfoldable pub apply_validation_correlation : Time → Outcome → IndexFile → IndexFile
apply_validation_correlation now o f = if is_empty o.request_id then f else record f {
  validation_request_records = kept f.validation_request_records (
      update_first (has_request o.request_id) (λ r. ok (correlate now o r))
        f.validation_request_records);
}
