-- ===== src/Reconcile/Enqueue/Budget.antt =====
-- pkg/reconcile/enqueue.go, RetryDue: the attempts of a request stay within the budget.
use mathlib.Core.Path.{subst}
use node_vault.Base.{
  ℕ, ◌≤◌, ◌<◌, ◌≡◌, refl, sym, String, Bool, true, false, not, some, List, [], ◌∷◌, All,
  All-modify_first, arith, leb, if◌then◌else◌, Bool-cases, find_first, inl, inr, is_zero, ltb, ◌&&◌,
}
use node_vault.Index.Schema.{IndexFile, ValidationRequestRecord, ValidationStatus}
use node_vault.Index.Errors.{Result, ok, err, ◌>>=◌}
use node_vault.Index.Sections.{update_first, update_first-ok}
use node_vault.Index.Requests.{
  Mutation, has_request, transition, retry_state, transition_validation_request,
  update_validation_request_retry_state, list_validation_requests_by_status,
}
use node_vault.Reconcile.Enqueue.{
  Pass, Effective, Reply, job, failure, logged, attempted, on_retry_success, on_retry_failure,
  retry_one, escalate, abandoned, retry_turn, is_inert, recover_pending, recover_turn, over,
  recover_stranded_pending, retry_due, replied, sooner,
}

abbrev pub InBudget : ℕ → IndexFile → Type 0
InBudget most f = All (λ r. r.enqueue_attempts ≤ most) f.validation_request_records

module _ (P : ValidationRequestRecord → Type 0) where
  All-found :
      (p : ValidationRequestRecord → Bool) (rs : List ValidationRequestRecord)
      (r : ValidationRequestRecord)
      → All P rs
      → find_first p rs ≡ some r
      → P r
  unfolding find_first
  All-found p [] r h e = absurd (cc)
  All-found p (x ∷ rs) r h e = elim (Bool-cases (p x)) [
    | inl b ↦ subst P (ground (b, e, arith)) h.0
    | inr b ↦ All-found p rs r h.1 (rw b at e)
  ]

  -- What holds of every request still does after a write that gives it to the one that it changes.
  written :
      (p : ValidationRequestRecord → Bool)
      (g : ValidationRequestRecord → Result ValidationRequestRecord) (f : IndexFile)
      → ((r s : ValidationRequestRecord) → g r ≡ ok s → P r → P s)
      → All P f.validation_request_records
      → All P
          (logged f (
            update_first p g f.validation_request_records >>= λ rs.
            ok (tt, record f { validation_request_records = rs }))).validation_request_records
  written p g f k h = go (update_first p g f.validation_request_records) refl
    where
      go :
          (o : Result (List ValidationRequestRecord))
          → update_first p g f.validation_request_records ≡ o
          → All P
              (logged f (
                o >>= λ rs.
                ok (tt, record f { validation_request_records = rs }))).validation_request_records
      go (err e) q = h
      go (ok rs) q =
          let (r, s, found, gr, is) = update_first-ok p g f.validation_request_records q in
          subst (All P) (sym is) (
            All-modify_first P p (λ _. s) f.validation_request_records
              (λ _ _. k r s gr (All-found p f.validation_request_records r h found)) h)

  -- A transition that writes what keeps `P`, which does not read the status.
  transition-All :
      (p : Pass) (id : String) (to : ValidationStatus) (mutate : Mutation) (f : IndexFile)
      → ((r : ValidationRequestRecord) → P r → P (record (mutate r) { validation_status = to }))
      → All P f.validation_request_records
      → All P (attempted (transition_validation_request id to mutate) f).validation_request_records
  unfolding transition_validation_request transition
  transition-All p id to mutate f k h =
      written (has_request id) (transition to mutate) f
        (λ r s e q. subst P (ground (e, arith)) (k r q)) h

  over-All :
      (turn : ValidationRequestRecord → IndexFile → IndexFile) (rs : List ValidationRequestRecord)
      (f : IndexFile)
      → ((r : ValidationRequestRecord) (g : IndexFile)
          → All P g.validation_request_records
          → All P (turn r g).validation_request_records)
      → All P f.validation_request_records
      → All P (over turn rs f).validation_request_records
  unfolding over
  over-All turn [] f k h = h
  over-All turn (r ∷ rs) f k h = over-All turn rs (turn r f) k (k r f h)

  retry_state-All :
      (p : Pass) (id : String) (mutate : Mutation) (f : IndexFile)
      → ((r : ValidationRequestRecord)
          → P r
          → P (record (mutate r) { validation_status = r.validation_status }))
      → All P f.validation_request_records
      → All P
          (attempted (update_validation_request_retry_state id mutate) f).validation_request_records
  unfolding update_validation_request_retry_state retry_state
  retry_state-All p id mutate f k h =
      written (has_request id) (retry_state mutate) f
        (λ r s e q. subst P (ground (e, arith)) (k r q)) h

module _ (p : Pass) (c : Effective) where
  Within : ValidationRequestRecord → Type 0
  Within r = r.enqueue_attempts ≤ c.max_attempts

  retry_one-InBudget :
      (r : ValidationRequestRecord) (f : IndexFile)
      → r.enqueue_attempts < c.max_attempts
      → InBudget c.max_attempts f
      → InBudget c.max_attempts (retry_one p c r f)
  unfolding retry_one on_retry_success on_retry_failure Within
  retry_one-InBudget r f l h = go (p.enqueue r)
    where
      go : (reply : Reply) → InBudget c.max_attempts (replied p c r reply f)
      go (job id) =
          transition-All Within p r.validation_request_id ValidationStatus.queued _ f
            (λ x k. omega arith) h
      go (failure reason) =
          retry_state-All Within p r.validation_request_id _ f (λ x k. omega arith) h

  retry_turn-InBudget :
      (r : ValidationRequestRecord) (f : IndexFile)
      → InBudget c.max_attempts f
      → InBudget c.max_attempts (retry_turn p c r f)
  unfolding retry_turn escalate abandoned Within
  retry_turn-InBudget r f h = elim (Bool-cases (leb c.max_attempts r.enqueue_attempts)) [
    | inl e ↦ rw e (
        transition-All Within p r.validation_request_id ValidationStatus.enqueue_abandoned _ f
          (λ x k. k) h)
    | inr e ↦ rw e (elim (Bool-cases (is_inert r)) [
      | inl i ↦ rw i h
      | inr i ↦ rw i (
          go (not (is_zero r.next_attempt_at) && ltb p.now r.next_attempt_at)
            (retry_one-InBudget r f (ground (e, arith)) h))
    ])
  ]
    where
      go :
          (b : Bool)
          → InBudget c.max_attempts (retry_one p c r f)
          → InBudget c.max_attempts (if b then f else retry_one p c r f)
      go true k = h
      go false k = k

  recover_turn-InBudget :
      (r : ValidationRequestRecord) (f : IndexFile)
      → InBudget c.max_attempts f
      → InBudget c.max_attempts (recover_turn p c r f)
  unfolding recover_turn recover_pending Within
  recover_turn-InBudget r f h = elim (Bool-cases (is_inert r)) [
    | inl e ↦ rw e h
    | inr e ↦ rw e (go (sooner p.now r.requested_at c.pending_stale_after))
  ]
    where
      go : (b : Bool) → InBudget c.max_attempts (if b then f else recover_pending p r f)
      go true = h
      go false =
          transition-All Within p r.validation_request_id ValidationStatus.unavailable _ f
            (λ x k. k) h

  -- A pass of RetryDue never takes a request over its budget of attempts: when no request has more
  -- attempts than the configuration allows, none has after the pass, whatever NodeSentinel answers
  -- and whichever saves fail.
  pub retry_due-InBudget :
      (f : IndexFile) → InBudget c.max_attempts f → InBudget c.max_attempts (retry_due p c f)
  unfolding retry_due recover_stranded_pending Within
  retry_due-InBudget f h =
      over-All Within (recover_turn p c)
        (list_validation_requests_by_status ValidationStatus.enqueue_pending retried) retried
        recover_turn-InBudget
        (over-All Within (retry_turn p c)
          (list_validation_requests_by_status ValidationStatus.unavailable f) f retry_turn-InBudget
          h)
    where
      retried : IndexFile
      retried =
          over (retry_turn p c) (list_validation_requests_by_status ValidationStatus.unavailable f)
            f
