-- ===== src/Index/Records/Redelivery.antt =====
-- A validation result is recorded once, with its request, whatever is delivered again.
use node_vault.Base.{
  Time, ◌≡◌, refl, ◌∙◌, ap, String, Bool, false, Option, none, some, arith, ◌==◌, eq_iff, eq_refl,
  is_empty, or_now, find_first, find_first-snoc, snoc, if◌then◌else◌, Bool-cases, List, inl, inr,
  find_first-true, find_first-modify_self, find_first-modify_other,
}
use node_vault.Index.Schema.{IndexFile, ToolCheckRecord, ValidationRequestRecord}
use node_vault.Index.Errors.{
  Error, Result, ok, err, ok-injective, duplicate_record, record_conflict,
}
use node_vault.Index.Sections.{
  update_first, kept, UpdateOutcome, missing, declined, changed, update_first-cases,
}
use node_vault.Index.Requests.{
  Outcome, correlate, has_request, request_key, apply_validation_correlation,
}
use node_vault.Index.Requests.Graph.{request_at, correlate-key}
use node_vault.Index.Records.{
  Fingerprint, has_check, check_fields, append_check, append_tool_check_record_correlated,
  get_tool_check_record_by_id,
}

-- The record as it is stored.
abbrev pub received : Time → ToolCheckRecord → ToolCheckRecord
received now r = record r { checked_at = or_now now r.checked_at }

append_check-ok :
    (h : Fingerprint) (now : Time) (r : ToolCheckRecord) (f : IndexFile) {f' : IndexFile}
    → append_check h now r f ≡ ok f'
    → (is_empty r.check_id ≡ false)
      × (find_first (has_check r.check_id) f.tool_check_records ≡ none)
      × (f' ≡ record f { tool_check_records = snoc f.tool_check_records (received now r) })
unfolding append_check
append_check-ok h now r f q = ground arith

append_check-again :
    (h : Fingerprint) (now : Time) (again old : ToolCheckRecord) (f : IndexFile)
    → is_empty again.check_id ≡ false
    → find_first (has_check again.check_id) f.tool_check_records ≡ some old
    → append_check h now again f ≡ (
        if h.check (check_fields old) == h.check (check_fields again)
        then err duplicate_record
        else err record_conflict)
unfolding append_check
append_check-again h now again old f k q = simp (k, q)

records-correlation :
    (now : Time) (o : Outcome) (f : IndexFile)
    → (apply_validation_correlation now o f).tool_check_records ≡ f.tool_check_records
unfolding apply_validation_correlation
records-correlation now o f = ground arith

stored :
    (h : Fingerprint) (now : Time) (r : ToolCheckRecord) (o : Outcome) (f : IndexFile)
    (m : Result IndexFile) {f' : IndexFile}
    → append_check h now r f ≡ m
    → append_tool_check_record_correlated h now r o f ≡ ok (tt, f')
    → (g : IndexFile) × (m ≡ ok g) × (f' ≡ apply_validation_correlation now o g)
unfolding append_tool_check_record_correlated
stored h now r o f (ok g) e q = ground (e, arith)
stored h now r o f (err z) e q = ground (e, arith)

refused :
    (h : Fingerprint) (now : Time) (r : ToolCheckRecord) (o : Outcome) (f : IndexFile) {z : Error}
    → append_check h now r f ≡ err z
    → append_tool_check_record_correlated h now r o f ≡ err z
unfolding append_tool_check_record_correlated
refused h now r o f q = simp (q)

-- The request of the result, and every other one, after the correlation.
abbrev pub taken :
    String → Time → Outcome → Option ValidationRequestRecord → Option ValidationRequestRecord
taken id now o none = none
taken id now o (some v) = some (if o.request_id == id then correlate now o v else v)

taken_other :
    (id : String) (now : Time) (o : Outcome) (v : Option ValidationRequestRecord)
    → o.request_id == id ≡ false
    → taken id now o v ≡ v
taken_other id now o none k = refl
taken_other id now o (some v) k = rw k refl

correlated :
    (now : Time) (o : Outcome) (id : String) (rs : List ValidationRequestRecord)
    → find_first
        (has_request id)
        (kept rs (update_first (has_request o.request_id) (λ r. ok (correlate now o r)) rs))
      ≡ taken id now o (find_first (has_request id) rs)
correlated now o id rs =
    go (update_first-cases (has_request o.request_id) (λ r. ok (correlate now o r)) rs)
  where
    R : Result (List ValidationRequestRecord) → Type 0
    R r = find_first (has_request id) (kept rs r) ≡ taken id now o (find_first (has_request id) rs)

    p : ValidationRequestRecord → Bool
    p = has_request o.request_id

    go :
        UpdateOutcome p
          (λ r. ok (correlate now o r))
          rs
          (update_first p (λ r. ok (correlate now o r)) rs)
        → R (update_first p (λ r. ok (correlate now o r)) rs)
    go (missing n q) = elim (Bool-cases (o.request_id == id)) [
      | inl same ↦ rw (q, ← (eq_iff o.request_id id).0 same, n) refl
      | inr other ↦ rw (q, taken_other id now o (find_first (has_request id) rs) other) refl
    ]
    go (declined x e n c q) = cc
    go (changed x y n c q) = elim (Bool-cases (o.request_id == id)) [
      | inl same ↦
          let y_is : correlate now o x ≡ y = ok-injective (correlate now o x) y c in
          let id_is : o.request_id ≡ id = (eq_iff o.request_id id).0 same in
          rw
            (
              q,
              ← id_is,
              n,
              find_first-modify_self p y rs x n
                  (rw (← y_is, correlate-key now o x) (find_first-true p rs x n)),
            )
            (simp (eq_refl o.request_id, y_is))
      | inr other ↦
          let y_is : correlate now o x ≡ y = ok-injective (correlate now o x) y c in
          let x_key : request_key x ≡ o.request_id =
            (eq_iff (request_key x) o.request_id).0 (find_first-true p rs x n) in
          rw (q, taken_other id now o (find_first (has_request id) rs) other)
            (find_first-modify_other p (has_request id) y rs x n (rw x_key other)
              (rw (← y_is, correlate-key now o x, x_key) other))
    ]

requests-correlation :
    (now : Time) (o : Outcome) (f : IndexFile) (id : String)
    → is_empty o.request_id ≡ false
    → request_at id (apply_validation_correlation now o f) ≡ taken id now o (request_at id f)
unfolding apply_validation_correlation
requests-correlation now o f id k = rw k (correlated now o id f.validation_request_records)

got-check :
    (id : String) (r : ToolCheckRecord) (f : IndexFile)
    → find_first (has_check id) f.tool_check_records ≡ some r
    → get_tool_check_record_by_id id f ≡ ok r
unfolding get_tool_check_record_by_id
got-check id r f q = rw q refl

fields-received :
    (now : Time) (r : ToolCheckRecord) → check_fields (received now r) ≡ check_fields r
unfolding check_fields
fields-received now r = refl

redelivered :
    (h : Fingerprint) (later : Time) (again old : ToolCheckRecord) (p : Outcome) (f : IndexFile)
    → is_empty again.check_id ≡ false
    → find_first (has_check again.check_id) f.tool_check_records ≡ some old
    → append_tool_check_record_correlated h later again p f ≡ (
        if h.check (check_fields old) == h.check (check_fields again)
        then err duplicate_record
        else err record_conflict)
redelivered h later again old p f k q =
    elim (Bool-cases (h.check (check_fields old) == h.check (check_fields again))) [
      | inl e ↦
          rw e (refused h later again p f (rw e at (append_check-again h later again old f k q)))
      | inr e ↦
          rw e (refused h later again p f (rw e at (append_check-again h later again old f k q)))
    ]

-- A check record is stored once, with its request, whatever is delivered again. When the append of a
-- record with its correlation, whose request ID is not empty, goes through: the record is found under
-- its ID as it was received (its zero time made the present), the request that it names has taken
-- the result as `correlate` says and every other request is as it was; and any later delivery under
-- the same ID, with any correlation, is refused: as a duplicate when its
-- fingerprint is that of the stored record, otherwise as a conflict.
pub append_tool_check_record_correlated_lem :
    (h : Fingerprint) (now : Time) (r : ToolCheckRecord) (o : Outcome) (f : IndexFile) (id : String)
    (later : Time) (again : ToolCheckRecord) (p : Outcome) {f' : IndexFile}
    → append_tool_check_record_correlated h now r o f ≡ ok (tt, f')
    → is_empty o.request_id ≡ false
    → again.check_id ≡ r.check_id
    → (get_tool_check_record_by_id r.check_id f' ≡ ok (received now r))
      × (request_at id f' ≡ taken id now o (request_at id f))
      × (append_tool_check_record_correlated h later again p f' ≡ (
          if h.check (check_fields r) == h.check (check_fields again)
          then err duplicate_record
          else err record_conflict))
append_tool_check_record_correlated_lem h now r o f id later again p {f'} q k same =
    let (g, e, f'_is) = stored h now r o f (append_check h now r f) refl q in
    let (named, fresh, g_is) = append_check-ok h now r f e in
    let f'_at : f'
        ≡ apply_validation_correlation now o
            (record f { tool_check_records = snoc f.tool_check_records (received now r) }) =
      f'_is ∙ ap (apply_validation_correlation now o) g_is in
    let stays : f'.tool_check_records ≡ snoc f.tool_check_records (received now r) = rw f'_at (
      records-correlation now o
        (record f { tool_check_records = snoc f.tool_check_records (received now r) })) in
    let there : find_first (has_check r.check_id) f'.tool_check_records ≡ some (received now r) =
      rw
        (stays, find_first-snoc (has_check r.check_id) f.tool_check_records (received now r), fresh)
        (simp (eq_refl r.check_id)) in
    (
      got-check r.check_id (received now r) f' there,
      rw f'_at (
          requests-correlation now o
            (record f { tool_check_records = snoc f.tool_check_records (received now r) }) id k),
      rw (← fields-received now r)
          (redelivered h later again (received now r) p f' (rw same named) (rw same there)),
    )
