-- ===== src/Index/Functions/Idempotence.antt =====
-- The two axes of idempotency of a ToolFunction registration.
use node_vault.Base.{
  Time, ◌≡◌, refl, ◌∙◌, ap, ◌⊎◌, inl, inr, String, Bool, true, false, ◌&&◌, Option, none, some,
  List, arith, ◌==◌, eq_iff, eq_refl, is_empty, find_first, find_first-snoc, find_first-true, snoc,
  if◌then◌else◌, Bool-cases,
}
use node_vault.Index.Schema.{
  IndexFile, RegisteredToolFunction, ToolFunctionPresentationRevision, ToolFunctionRequestRecord,
  ToolFunctionOperation, complete, basis_known,
}
use node_vault.Index.Errors.{Error, ok, err, request_conflict}
use node_vault.Index.Sections.{or_not_found}
use node_vault.Index.Functions.{
  EnvelopeOf, replays, refuses, persists, plan_register, find_tool_function,
  find_tool_function_request, has_request_id, has_function_cas, receipt,
  resolve_tool_function_request, same_basis,
}
use node_vault.Index.Functions.Writes.{
  or_not_found-ok, Written, Writes-Written, plan_register-Writes,
}

find-kept :
    {A : Type 0} (p : A → Bool) (xs : List A) (x y : A)
    → find_first p xs ≡ some x
    → find_first p (snoc xs y) ≡ some x
find-kept p xs x y h = rw (find_first-snoc p xs y, h) refl

function-kept :
    (cas : String) (x r : RegisteredToolFunction) (fs fs' : List RegisteredToolFunction)
    → (fs' ≡ fs) ⊎ (fs' ≡ snoc fs r)
    → or_not_found (find_first (has_function_cas cas) fs) ≡ ok x
    → or_not_found (find_first (has_function_cas cas) fs') ≡ ok x
function-kept cas x r fs fs' (inl e) h = rw e h
function-kept cas x r fs fs' (inr e) h =
    rw (e, find-kept (has_function_cas cas) fs x r (or_not_found-ok _ x h)) refl

request-kept :
    (id : String) (x q : ToolFunctionRequestRecord) (f f' : IndexFile)
    → f'.tool_function_request_records ≡ snoc f.tool_function_request_records q
    → find_tool_function_request id f ≡ some x
    → find_tool_function_request id f' ≡ some x
unfolding find_tool_function_request
request-kept id x q f f' e h = elim (Bool-cases (is_empty id)) [
  | inl k ↦ absurd (ground (h, k, arith))
  | inr k ↦
      rw (k, e) (find-kept (has_request_id id) f.tool_function_request_records x q (rw k at h))
]

pub written :
    (envelope_of : EnvelopeOf) (now : Time) (op : ToolFunctionOperation)
    (rec : RegisteredToolFunction) (rev : Option ToolFunctionPresentationRevision) (f : IndexFile)
    {r : RegisteredToolFunction} {new : Bool} {f' : IndexFile}
    → plan_register envelope_of now op rec rev f ≡ persists r new f'
    → Written now op rec.cas_hash f r f'
written envelope_of now op rec rev f q =
    Writes-Written now op rec rev f (plan_register-Writes envelope_of now op rec rev f q).2

-- A registration overwrites nothing: a runnable record and a receipt that were found before it
-- writes are found unchanged in the index that it writes, and the record that it answers with is
-- found there under the CasHash of the call.
pub plan_register-keeps :
    (envelope_of : EnvelopeOf) (now : Time) (op : ToolFunctionOperation)
    (rec : RegisteredToolFunction) (rev : Option ToolFunctionPresentationRevision) (f : IndexFile)
    (cas id : String) (x : RegisteredToolFunction) (y : ToolFunctionRequestRecord)
    {r : RegisteredToolFunction} {new : Bool} {f' : IndexFile}
    → find_tool_function cas f ≡ ok x
    → find_tool_function_request id f ≡ some y
    → plan_register envelope_of now op rec rev f ≡ persists r new f'
    → (find_tool_function cas f' ≡ ok x)
      × (find_tool_function_request id f' ≡ some y)
      × (find_tool_function rec.cas_hash f' ≡ ok r)
unfolding find_tool_function
plan_register-keeps envelope_of now op rec rev f cas id x y {r} {new} {f'} h k q =
    let w = written envelope_of now op rec rev f q in
    (
      function-kept cas x r f.registered_tool_functions f'.registered_tool_functions
          w.functions_after h,
      request-kept id y (receipt now op r) f f' w.requests_after k,
      rw w.found_after refl,
    )

pub found_after-own :
    (now : Time) (op : ToolFunctionOperation) (cas : String) (f f' : IndexFile)
    (r : RegisteredToolFunction)
    → Written now op cas f r f'
    → find_tool_function cas f' ≡ ok r
unfolding find_tool_function
found_after-own now op cas f f' r w = rw w.found_after refl

request-found :
    (now : Time) (op : ToolFunctionOperation) (cas : String) (f : IndexFile)
    (r : RegisteredToolFunction) (f' : IndexFile)
    → is_empty op.request_id ≡ false
    → find_tool_function_request op.request_id f ≡ none
    → Written now op cas f r f'
    → find_tool_function_request op.request_id f' ≡ some (receipt now op r)
unfolding find_tool_function_request
request-found now op cas f r f' k h w =
    rw
      (
        k,
        w.requests_after,
        find_first-snoc (has_request_id op.request_id) f.tool_function_request_records
            (receipt now op r),
        rw k at h,
      )
      (simp (eq_refl op.request_id))

resolved :
    (op op' : ToolFunctionOperation) (cas : String) (now : Time) (r : RegisteredToolFunction)
    (f' : IndexFile)
    → complete op ≡ true
    → find_tool_function_request op'.request_id f' ≡ some (receipt now op r)
    → find_tool_function r.cas_hash f' ≡ ok r
    → resolve_tool_function_request op' cas f'
      ≡ some (
          if same_basis (receipt now op r) op' && r.cas_hash == cas
          then ok r
          else err request_conflict)
unfolding resolve_tool_function_request
resolved op op' cas now r f' k q p =
    let known : basis_known (receipt now op r) ≡ true = ground arith in
    elim (Bool-cases (same_basis (receipt now op r) op' && r.cas_hash == cas)) [
      | inl e ↦ rw (q, resolve_tool_function_request, known, e, p) refl
      | inr e ↦ rw (q, resolve_tool_function_request, known, e) refl
    ]

planned :
    (envelope_of : EnvelopeOf) (later : Time) (op : ToolFunctionOperation)
    (rec : RegisteredToolFunction) (rev : Option ToolFunctionPresentationRevision) (f : IndexFile)
    (b : Bool) (r : RegisteredToolFunction) (e : Error)
    → is_empty rec.cas_hash ≡ false
    → resolve_tool_function_request op rec.cas_hash f ≡ some (if b then ok r else err e)
    → plan_register envelope_of later op rec rev f ≡ (if b then replays r else refuses e)
unfolding plan_register
planned envelope_of later op rec rev f true r e k h = simp (k, h)
planned envelope_of later op rec rev f false r e k h = simp (k, h)

-- A request ID is spent once: after a registration that writes under a complete operation, whoever
-- registers again under the same request ID gets the recorded answer with no write when the
-- canonicalizer version, the fingerprint, the basis and the CasHash are those of the first, and
-- otherwise a conflict; neither the new presentation nor any other field of the new record counts.
pub plan_register-again :
    (envelope_of : EnvelopeOf) (now : Time) (op : ToolFunctionOperation)
    (rec : RegisteredToolFunction) (rev : Option ToolFunctionPresentationRevision) (f : IndexFile)
    (later : Time) (op' : ToolFunctionOperation) (rec' : RegisteredToolFunction)
    (rev' : Option ToolFunctionPresentationRevision) {r : RegisteredToolFunction} {new : Bool}
    {f' : IndexFile}
    → complete op ≡ true
    → plan_register envelope_of now op rec rev f ≡ persists r new f'
    → op'.request_id ≡ op.request_id
    → is_empty rec'.cas_hash ≡ false
    → plan_register envelope_of later op' rec' rev' f' ≡ (
        if same_basis (receipt now op r) op' && rec.cas_hash == rec'.cas_hash
        then replays r
        else refuses request_conflict)
plan_register-again envelope_of now op rec rev f later op' rec' rev' {r} {new} {f'} k q same m =
    let w = written envelope_of now op rec rev f q in
    let fresh = (plan_register-Writes envelope_of now op rec rev f q).1 in
    let r_cas : r.cas_hash ≡ rec.cas_hash = (eq_iff r.cas_hash rec.cas_hash).0 (
      find_first-true (has_function_cas rec.cas_hash) f'.registered_tool_functions r
        w.found_after) in
    let spent : find_tool_function_request op'.request_id f' ≡ some (receipt now op r) =
      rw same (request-found now op rec.cas_hash f r f' (ground arith) fresh w) in
    let there : find_tool_function r.cas_hash f' ≡ ok r =
      ap (λ c. find_tool_function c f') r_cas ∙ found_after-own now op rec.cas_hash f f' r w in
    planned envelope_of later op' rec' rev' f'
      (same_basis (receipt now op r) op' && r.cas_hash == rec'.cas_hash) r request_conflict m
      (resolved op op' rec'.cas_hash now r f' k spent there)
    ∙ ap
        (λ cas.
          if same_basis (receipt now op r) op' && cas == rec'.cas_hash
          then replays r
          else refuses request_conflict)
        r_cas
