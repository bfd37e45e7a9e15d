-- ===== src/Reconcile/Enqueue.antt =====
-- pkg/reconcile/enqueue.go: the retries of the hand-off of validation requests to NodeSentinel. The
-- answers of NodeSentinel are parameters; durations are nanoseconds. The index is the one in memory,
-- which keeps a change whose save fails.
pub mod Backoff
pub mod Budget
mod Examples
use Prim.Native.Nat.{◌%◌}
use Prim.Native.String.{◌++◌}
use node_vault.Base.{
  ℕ, zero, suc, ◌+◌, ◌-◌, ◌*◌, ◌/◌, ℤ, pos, negsuc, Time, String, Bool, true, false, not, ◌&&◌,
  ◌||◌, List, [], ◌∷◌, is_empty, is_zero, ltb, leb, if◌then◌else◌,
}
use node_vault.Base.Int64.{int64, add_int64}
use node_vault.Index.Schema.{IndexFile, ValidationRequestRecord, ValidationStatus}
use node_vault.Index.Errors.{Result, ok, err}
use node_vault.Index.Requests.{
  transition_validation_request, update_validation_request_retry_state,
  list_validation_requests_by_status,
}

-- `EnqueueRetryConfig`, less the fraction of the jitter.
pub record EnqueueRetryConfig : Type 0 where
  pub max_attempts : ℤ
  pub base_backoff : ℤ
  pub max_backoff : ℤ
  pub enqueue_timeout : ℤ
  pub pending_stale_after : ℤ

-- The values of the configuration once the defaults are applied. They are positive, but for the last
-- one, whose sum may wrap.
pub record Effective : Type 0 where
  pub max_attempts : ℕ
  pub base_backoff : ℕ
  pub max_backoff : ℕ
  pub enqueue_timeout : ℕ
  pub pending_stale_after : ℤ

abbrev pub seconds : ℕ → ℕ
seconds n = n * 1000000000

-- `if c <= 0 { c = fallback }`
abbrev pub positive_or : ℕ → ℤ → ℕ
positive_or fallback (pos n) = if is_zero n then fallback else n
positive_or fallback (negsuc n) = fallback

abbrev pub at_least : ℕ → ℕ → ℕ
at_least floor n = if ltb n floor then floor else n

-- The stale threshold is raised above the timeout of a hand-off, by a sum of int64s.
abbrev pub above : ℕ → ℕ → ℤ
above timeout stale = if leb stale timeout then int64 (timeout + seconds 30) else pos stale

unfoldable pub with_defaults : EnqueueRetryConfig → Effective
unfolding int64
with_defaults c =
    let base = positive_or (seconds 30) c.base_backoff in
    let timeout = positive_or (seconds 5) c.enqueue_timeout in
    record {
      max_attempts = positive_or 5 c.max_attempts;
      base_backoff = base;
      max_backoff = at_least base (positive_or (seconds 900) c.max_backoff);
      enqueue_timeout = timeout;
      pending_stale_after = above timeout (positive_or (seconds 30) c.pending_stale_after);
    }

-- `d *= 2` on an int64 that is not negative: the bits of the product.
abbrev pub doubled : ℕ → ℕ
doubled d = (d * 2) % 18446744073709551616

-- The loop of `backoff`, on the number of turns that are left.
unfoldable pub grow : ℕ → ℕ → ℕ → ℕ
grow most zero d = d
grow most (suc n) d = let rest = grow most n (doubled d) in if leb (most / 2) d then most else rest

abbrev pub capped : ℕ → ℕ → ℕ
capped most d = if ltb most d then most else d

-- The delay before the jitter.
unfoldable pub delay : Effective → ℕ → ℕ
unfolding grow
delay c attempt = capped c.max_backoff (grow c.max_backoff (attempt - 1) c.base_backoff)

-- `if d < 0 { d = 0 }`
abbrev pub not_negative : ℤ → ℕ
not_negative (pos n) = n
not_negative (negsuc n) = 0

-- `backoff`: what the jitter makes of a delay, time.Duration(float64(d) * delta), is added to it.
unfoldable pub backoff : (ℕ → ℤ) → Effective → ℕ → ℕ
unfolding delay add_int64
backoff jitter c attempt = let d = delay c attempt in not_negative (add_int64 d (jitter d))

-- What a pass meets: the clock, the jitter of a delay, what NodeSentinel answers a request with, a job
-- or the text of an error, and what fmt.Sprintf makes of the number of failed attempts, and of the
-- time since a request was made.
pub data Reply : Type 0 where
  job : String → Reply
  failure : String → Reply

pub record Pass : Type 0 where
  pub now : Time
  pub jitter : ℕ → ℤ
  pub enqueue : ValidationRequestRecord → Reply
  pub abandoned_after : ℕ → String
  pub recovered_after : Time → Time → String

-- A call of the Store for a request: a refusal and a failed save are only logged.
abbrev pub logged : IndexFile → Result (Unit {0} × IndexFile) → IndexFile
logged f (ok (_, g)) = g
logged f (err e) = f

abbrev pub attempted : (IndexFile → Result (Unit {0} × IndexFile)) → IndexFile → IndexFile
attempted op f = logged f (op f)

-- `onRetrySuccess`
unfoldable pub on_retry_success : Pass → String → ℕ → String → IndexFile → IndexFile
unfolding transition_validation_request
on_retry_success p id attempt job_id f =
    attempted
      (transition_validation_request id ValidationStatus.queued (λ r. record r {
        enqueue_attempts = attempt;
        sentinel_job_id = job_id;
        queued_at = p.now;
        failure_reason = "";
        next_attempt_at = 0;
      }))
      f

-- `onRetryFailure`
unfoldable pub on_retry_failure : Pass → Effective → String → ℕ → String → IndexFile → IndexFile
unfolding update_validation_request_retry_state backoff
on_retry_failure p c id attempt reason f =
    attempted
      (update_validation_request_retry_state id (λ r. record r {
        enqueue_attempts = attempt;
        failure_reason = reason;
        next_attempt_at = p.now + backoff p.jitter c attempt;
      }))
      f

abbrev pub replied : Pass → Effective → ValidationRequestRecord → Reply → IndexFile → IndexFile
unfolding on_retry_success on_retry_failure
replied p c r (job id) f = on_retry_success p r.validation_request_id (suc r.enqueue_attempts) id f
replied p c r (failure reason) f =
    on_retry_failure p c r.validation_request_id (suc r.enqueue_attempts) reason f

-- `retryOne`
unfoldable pub retry_one : Pass → Effective → ValidationRequestRecord → IndexFile → IndexFile
unfolding replied
retry_one p c r f = replied p c r (p.enqueue r) f

abbrev pub with_last_error : String → String → String
with_last_error reason last = if is_empty last then reason else reason ++ ("; last error: " ++ last)

unfoldable pub abandoned :
    Pass → ValidationRequestRecord → ValidationRequestRecord → ValidationRequestRecord
abandoned p r x = record x {
  failure_reason = with_last_error (p.abandoned_after r.enqueue_attempts) r.failure_reason;
  completed_at = p.now;
}

-- `escalate`
unfoldable pub escalate : Pass → ValidationRequestRecord → IndexFile → IndexFile
unfolding transition_validation_request
escalate p r f =
    attempted
      (transition_validation_request r.validation_request_id ValidationStatus.enqueue_abandoned
        (abandoned p r))
      f

abbrev pub is_inert : ValidationRequestRecord → Bool
is_inert r = is_empty r.image_repository || is_empty r.tool_name

-- The turn of the loop of `RetryDue` on one Unavailable request.
unfoldable pub retry_turn : Pass → Effective → ValidationRequestRecord → IndexFile → IndexFile
unfolding escalate retry_one
retry_turn p c r f =
    if leb c.max_attempts r.enqueue_attempts
    then escalate p r f
    else if is_inert r
    then f
    else if not (is_zero r.next_attempt_at) && ltb p.now r.next_attempt_at
    then f
    else retry_one p c r f

unfoldable pub recover_pending : Pass → ValidationRequestRecord → IndexFile → IndexFile
unfolding transition_validation_request
recover_pending p r f =
    attempted
      (transition_validation_request r.validation_request_id ValidationStatus.unavailable
        (λ x. record x { failure_reason = p.recovered_after p.now r.requested_at }))
      f

-- `now.Sub(t) < d`, for a duration that may be negative.
unfoldable pub sooner : Time → Time → ℤ → Bool
sooner now t (pos d) = ltb now (t + d)
sooner now t (negsuc d) = ltb (now + suc d) t

-- The turn of the loop of `recoverStrandedPending`.
unfoldable pub recover_turn : Pass → Effective → ValidationRequestRecord → IndexFile → IndexFile
unfolding recover_pending sooner
recover_turn p c r f =
    if is_inert r
    then f
    else if sooner p.now r.requested_at c.pending_stale_after
    then f
    else recover_pending p r f

-- A loop over a snapshot.
unfoldable pub over :
    (ValidationRequestRecord → IndexFile → IndexFile)
    → List ValidationRequestRecord
    → IndexFile
    → IndexFile
over turn [] f = f
over turn (r ∷ rs) f = over turn rs (turn r f)

unfoldable pub recover_stranded_pending : Pass → Effective → IndexFile → IndexFile
unfolding over recover_turn list_validation_requests_by_status
recover_stranded_pending p c f =
    over (recover_turn p c) (list_validation_requests_by_status ValidationStatus.enqueue_pending f)
      f

-- `RetryDue`, with a context that is not canceled.
unfoldable pub retry_due : Pass → Effective → IndexFile → IndexFile
unfolding over retry_turn recover_stranded_pending list_validation_requests_by_status
retry_due p c f =
    recover_stranded_pending p c
      (over (retry_turn p c) (list_validation_requests_by_status ValidationStatus.unavailable f) f)
