-- ===== src/Index/Requests/Graph.antt =====
-- The validation state graph: what a submitted result does to a request in each state, and what no
-- history of calls can do to a settled one.
use node_vault.Base.{
  Time, ◌≡◌, ◌⊎◌, inl, inr, String, Bool, true, false, Option, some, List, [], ◌∷◌, arith, is_empty,
  or_now, find_first, find_first-snoc, if◌then◌else◌, All, Bool-cases,
}
use node_vault.Index.Schema.{IndexFile, ValidationRequestRecord, ValidationStatus}
use node_vault.Index.Errors.{Result, ok, err, ok-injective}
use node_vault.Index.Sections.{append_new, update_first, kept, lookup-update}
use node_vault.Index.Requests.{
  or_pending, request_key, has_request, create_validation_request_record,
  valid_validation_transition, Mutation, transition, transition_validation_request, retry_state,
  update_validation_request_retry_state, Outcome, outcome_status, correlate,
  apply_validation_correlation,
}

-- The states in which a result is still awaited.
abbrev pub is_live : ValidationStatus → Bool
is_live ValidationStatus.enqueue_pending = true
is_live ValidationStatus.unavailable = true
is_live ValidationStatus.queued = true
is_live ValidationStatus.running = true
is_live _ = false

correlate-settled :
    (now : Time) (o : Outcome) (r : ValidationRequestRecord)
    → is_live r.validation_status ≡ false
    → correlate now o r ≡ r
unfolding correlate valid_validation_transition
correlate-settled now o r h = ground arith

-- A result for a request that is still awaited is always taken, also when it comes before the
-- enqueue was acknowledged: a terminal one settles the request as its verdict says, with the end
-- time, another one leaves it Running; the job is noted unless the request was Running already.
pub correlate_lem :
    (now : Time) (o : Outcome) (r : ValidationRequestRecord)
    → is_live r.validation_status ≡ true
    → ((correlate now o r).validation_status
        ≡ (if o.terminal then outcome_status o.succeeded else ValidationStatus.running))
      × ((correlate now o r).completed_at ≡ (if o.terminal then now else r.completed_at))
      × ((r.validation_status ≡ ValidationStatus.running)
          ⊎ ((correlate now o r).sentinel_job_id
              ≡ (if is_empty o.job_id then r.sentinel_job_id else o.job_id)))
unfolding correlate valid_validation_transition
correlate_lem now o r h = (ground arith, ground arith, ground arith)

-- Every write of the Store on its requests.
pub data RequestCall : Type 0 where
  creates : Time → ValidationRequestRecord → RequestCall
  transitions : String → ValidationStatus → Mutation → RequestCall
  updates_retry : String → Mutation → RequestCall
  correlates : Time → Outcome → RequestCall

abbrev pub settle : IndexFile → Result (Unit {0} × IndexFile) → IndexFile
settle f (ok (_, f')) = f'
settle f (err e) = f

unfoldable pub run_request : RequestCall → IndexFile → IndexFile
run_request (creates now r) f = settle f (create_validation_request_record now r f)
run_request (transitions id to m) f = settle f (transition_validation_request id to m f)
run_request (updates_retry id m) f = settle f (update_validation_request_retry_state id m f)
run_request (correlates now o) f = apply_validation_correlation now o f

unfoldable pub run_requests : List RequestCall → IndexFile → IndexFile
run_requests [] f = f
run_requests (c ∷ cs) f = run_requests cs (run_request c f)

-- The callback does not rename the record, as no caller's does.
abbrev pub KeepsKey : RequestCall → Type 0
KeepsKey (creates now r) = Unit
KeepsKey (transitions id to m) = (r : ValidationRequestRecord) → request_key (m r) ≡ request_key r
KeepsKey (updates_retry id m) = (r : ValidationRequestRecord) → request_key (m r) ≡ request_key r
KeepsKey (correlates now o) = Unit

abbrev pub request_at : String → IndexFile → Option ValidationRequestRecord
request_at id f = find_first (has_request id) f.validation_request_records

create-Holds :
    (now : Time) (new : ValidationRequestRecord) (id : String) (f : IndexFile)
    (r : ValidationRequestRecord)
    → request_at id f ≡ some r
    → request_at id (settle f (create_validation_request_record now new f)) ≡ some r
unfolding create_validation_request_record append_new
create-Holds now new id f r h = ground (
  arith,
  find_first-snoc (has_request id) f.validation_request_records (record new {
    requested_at = or_now now new.requested_at;
    validation_status = or_pending new.validation_status;
  }),
)

-- An update that declines the record leaves it where it is found.
update-Holds :
    (k id : String) (g : ValidationRequestRecord → Result ValidationRequestRecord)
    (rs : List ValidationRequestRecord) (r : ValidationRequestRecord)
    → ((x y : ValidationRequestRecord) → g x ≡ ok y → request_key y ≡ request_key x)
    → ((y : ValidationRequestRecord) → g r ≡ ok y → y ≡ r)
    → find_first (has_request id) rs ≡ some r
    → find_first (has_request id) (kept rs (update_first (has_request k) g rs)) ≡ some r
update-Holds k id g rs r keeps same h = elim (lookup-update request_key k id g rs r keeps h) [
  | inl q ↦ q
  | inr (y, _, c, q) ↦ rw (same y c) at q
]

no_edge : (s to : ValidationStatus) → is_live s ≡ false → valid_validation_transition s to ≡ false
unfolding valid_validation_transition
no_edge s to h = ground arith

transition-declines :
    (to : ValidationStatus) (m : Mutation) (r y : ValidationRequestRecord)
    → is_live r.validation_status ≡ false
    → transition to m r ≡ ok y
    → y ≡ r
unfolding transition
transition-declines to m r y h q = ground (arith, no_edge r.validation_status to h)

transition-key :
    (to : ValidationStatus) (m : Mutation) (x y : ValidationRequestRecord)
    → request_key (m x) ≡ request_key x
    → transition to m x ≡ ok y
    → request_key y ≡ request_key x
unfolding transition
transition-key to m x y k q = ground arith

retry_state-declines :
    (m : Mutation) (r y : ValidationRequestRecord)
    → is_live r.validation_status ≡ false
    → retry_state m r ≡ ok y
    → y ≡ r
unfolding retry_state
retry_state-declines m r y h q = ground arith

retry_state-key :
    (m : Mutation) (x y : ValidationRequestRecord)
    → request_key (m x) ≡ request_key x
    → retry_state m x ≡ ok y
    → request_key y ≡ request_key x
unfolding retry_state
retry_state-key m x y k q = ground arith

pub correlate-key :
    (now : Time) (o : Outcome) (x : ValidationRequestRecord)
    → request_key (correlate now o x) ≡ request_key x
unfolding correlate
correlate-key now o x = ground arith

records-transition :
    (id : String) (to : ValidationStatus) (m : Mutation) (f : IndexFile)
    → (settle f (transition_validation_request id to m f)).validation_request_records
      ≡ kept f.validation_request_records
          (update_first (has_request id) (transition to m) f.validation_request_records)
unfolding transition_validation_request
records-transition id to m f = ground arith

records-retry :
    (id : String) (m : Mutation) (f : IndexFile)
    → (settle f (update_validation_request_retry_state id m f)).validation_request_records
      ≡ kept f.validation_request_records
          (update_first (has_request id) (retry_state m) f.validation_request_records)
unfolding update_validation_request_retry_state
records-retry id m f = ground arith

run_request-settled :
    (c : RequestCall) (id : String) (f : IndexFile) (r : ValidationRequestRecord)
    → KeepsKey c
    → is_live r.validation_status ≡ false
    → request_at id f ≡ some r
    → request_at id (run_request c f) ≡ some r
unfolding run_request apply_validation_correlation
run_request-settled (creates now new) id f r k d h = create-Holds now new id f r h
run_request-settled (transitions j to m) id f r k d h = rw (records-transition j to m f) (
    update-Holds j id (transition to m) f.validation_request_records r
      (λ x y q. transition-key to m x y (k x) q) (λ y q. transition-declines to m r y d q) h)
run_request-settled (updates_retry j m) id f r k d h = rw (records-retry j m f) (
    update-Holds j id (retry_state m) f.validation_request_records r
      (λ x y q. retry_state-key m x y (k x) q) (λ y q. retry_state-declines m r y d q) h)
run_request-settled (correlates now o) id f r k d h = elim (Bool-cases (is_empty o.request_id)) [
  | inl e ↦ rw e h
  | inr e ↦ rw e (
      update-Holds o.request_id id (λ x. ok (correlate now o x)) f.validation_request_records r
        (λ x y q. rw (ok-injective (correlate now o x) y q) at (correlate-key now o x))
        (λ y q. rw (ok-injective (correlate now o r) y q) at (correlate-settled now o r d)) h)
]

-- A request that is no longer awaited (Succeeded, Failed, Interrupted or EnqueueAbandoned) is final:
-- no history of creations, transitions, retry updates and submitted results, whose callbacks keep
-- the record's ID, changes anything in its record.
pub run_requests-settled :
    (cs : List RequestCall) (id : String) (f : IndexFile) (r : ValidationRequestRecord)
    → All KeepsKey cs
    → is_live r.validation_status ≡ false
    → request_at id f ≡ some r
    → request_at id (run_requests cs f) ≡ some r
unfolding run_requests
run_requests-settled [] id f r k d h = h
run_requests-settled (c ∷ cs) id f r k d h =
    run_requests-settled cs id (run_request c f) r k.1 d (run_request-settled c id f r k.0 d h)
