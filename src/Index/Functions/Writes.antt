-- ===== src/Index/Functions/Writes.antt =====
-- What a registration that writes does to the sections of the ToolFunctions.
use node_vault.Base.{
  Time, ◌≡◌, refl, ◌∙◌, ap, ◌⊎◌, inl, inr, String, Bool, true, false, Option, none, some, arith,
  eq_refl, is_empty, find_first, find_first-snoc, snoc, if◌then◌else◌, Option-cases,
}
use node_vault.Index.Schema.{
  IndexFile, RegisteredToolFunction, ToolFunctionPresentationRevision, ToolFunctionOperation,
}
use node_vault.Index.Errors.{Error, Result, ok, err, ok-injective}
use node_vault.Index.Sections.{or_not_found}
use node_vault.Index.Functions.{
  EnvelopeOf, persists, plan_register, plan_content, find_tool_function, find_tool_function_request,
  has_function_cas, with_receipt, with_revision, with_function, completed, receipt,
  resolve_tool_function_request, check_tool_function_envelope, prove_tool_function_reuse,
}

-- A registration that writes, by its two kinds.
pub data Writes (now : Time) (op : ToolFunctionOperation) (rec : RegisteredToolFunction)
    (rev : Option ToolFunctionPresentationRevision) (f : IndexFile) (r : RegisteredToolFunction)
    (new : Bool) (f' : IndexFile) : Type 0 where
  reuses :
      find_tool_function rec.cas_hash f ≡ ok r
      → new ≡ false
      → f' ≡ with_receipt now op r f
      → Writes now op rec rev f r new f'
  registers :
      (e : Error)
      → find_tool_function rec.cas_hash f ≡ err e
      → new ≡ true
      → r ≡ completed now op rec
      → f' ≡ with_function now op r rev f
      → Writes now op rec rev f r new f'

plan_content-Writes :
    (now : Time) (op : ToolFunctionOperation) (rec : RegisteredToolFunction)
    (rev : Option ToolFunctionPresentationRevision) (f : IndexFile)
    (look : Result RegisteredToolFunction) {r : RegisteredToolFunction} {new : Bool}
    {f' : IndexFile}
    → find_tool_function rec.cas_hash f ≡ look
    → plan_content now op rec rev f ≡ persists r new f'
    → Writes now op rec rev f r new f'
unfolding plan_content
plan_content-Writes now op rec rev f (ok x) {r} {new} {f'} e q =
    proved (prove_tool_function_reuse op x f) refl
  where
    proved :
        (m : Result (Unit {0}))
        → prove_tool_function_reuse op x f ≡ m
        → Writes now op rec rev f r new f'
    proved (ok _) k =
        reuses (ground (e, k, q, arith)) (ground (e, k, q, arith)) (ground (e, k, q, arith))
    proved (err z) k = absurd (ground (e, k, q, arith))
plan_content-Writes now op rec rev f (err z) e q =
    registers z e (ground (e, q, arith)) (ground (e, q, arith)) (ground (e, q, arith))

unresolved :
    (op : ToolFunctionOperation) (cas : String) (f : IndexFile)
    → resolve_tool_function_request op cas f ≡ none
    → find_tool_function_request op.request_id f ≡ none
unfolding resolve_tool_function_request
unresolved op cas f h = elim (Option-cases (find_tool_function_request op.request_id f)) [
  | inl q ↦ q
  | inr (r, q) ↦ absurd (ground (h, q, arith))
]

pub plan_register-Writes :
    (envelope_of : EnvelopeOf) (now : Time) (op : ToolFunctionOperation)
    (rec : RegisteredToolFunction) (rev : Option ToolFunctionPresentationRevision) (f : IndexFile)
    {r : RegisteredToolFunction} {new : Bool} {f' : IndexFile}
    → plan_register envelope_of now op rec rev f ≡ persists r new f'
    → (is_empty rec.cas_hash ≡ false)
      × (find_tool_function_request op.request_id f ≡ none)
      × Writes now op rec rev f r new f'
unfolding plan_register resolve_tool_function_request
plan_register-Writes envelope_of now op rec rev f {r} {new} {f'} q =
    named (is_empty rec.cas_hash) refl (resolve_tool_function_request op rec.cas_hash f) refl
      (check_tool_function_envelope envelope_of op rec.tool_function_digest f) refl
  where
    named :
        (b : Bool)
        → is_empty rec.cas_hash ≡ b
        → (m : Option (Result RegisteredToolFunction))
        → resolve_tool_function_request op rec.cas_hash f ≡ m
        → (k : Result (Unit {0}))
        → check_tool_function_envelope envelope_of op rec.tool_function_digest f ≡ k
        → (is_empty rec.cas_hash ≡ false)
          × (find_tool_function_request op.request_id f ≡ none)
          × Writes now op rec rev f r new f'
    named true e m g k h = absurd (ground (e, q, arith))
    named false e (some (ok x)) g k h = absurd (ground (e, g, q, arith))
    named false e (some (err x)) g k h = absurd (ground (e, g, q, arith))
    named false e none g (err x) h = absurd (ground (e, g, h, q, arith))
    named false e none g (ok _) h = (
      e,
      unresolved op rec.cas_hash f g,
      plan_content-Writes now op rec rev f (find_tool_function rec.cas_hash f) refl
          (ground (e, g, h, q, arith)),
    )

find-with_receipt :
    (now : Time) (op : ToolFunctionOperation) (r : RegisteredToolFunction) (f : IndexFile)
    (cas : String)
    → find_tool_function cas (with_receipt now op r f) ≡ find_tool_function cas f
unfolding with_receipt find_tool_function
find-with_receipt now op r f cas = refl

functions-with_revision :
    (now : Time) (rev : Option ToolFunctionPresentationRevision) (f : IndexFile)
    → ((with_revision now rev f).registered_tool_functions ≡ f.registered_tool_functions)
      × ((with_revision now rev f).tool_function_request_records ≡ f.tool_function_request_records)
unfolding with_revision
functions-with_revision now none f = (refl, refl)
functions-with_revision now (some rev) f = (ground arith, ground arith)

functions-with_function :
    (now : Time) (op : ToolFunctionOperation) (r : RegisteredToolFunction)
    (rev : Option ToolFunctionPresentationRevision) (f : IndexFile)
    → ((with_function now op r rev f).registered_tool_functions
        ≡ snoc f.registered_tool_functions r)
      × ((with_function now op r rev f).tool_function_request_records
          ≡ snoc f.tool_function_request_records (receipt now op r))
unfolding with_function with_receipt
functions-with_function now op r rev f =
    let (p, q) =
      functions-with_revision now rev
        (record f { registered_tool_functions = snoc f.registered_tool_functions r }) in
    (p, ap (λ rs. snoc rs (receipt now op r)) q)

-- The two sections after a registration that writes.
pub record Written (now : Time) (op : ToolFunctionOperation) (cas : String) (f : IndexFile)
    (r : RegisteredToolFunction) (f' : IndexFile) : Type 0 where
  pub found_after : find_first (has_function_cas cas) f'.registered_tool_functions ≡ some r
  pub functions_after :
      (f'.registered_tool_functions ≡ f.registered_tool_functions)
      ⊎ (f'.registered_tool_functions ≡ snoc f.registered_tool_functions r)
  pub requests_after :
      f'.tool_function_request_records ≡ snoc f.tool_function_request_records (receipt now op r)

pub or_not_found-ok : {A : Type 0} (o : Option A) (x : A) → or_not_found o ≡ ok x → o ≡ some x
or_not_found-ok none x h = cc
or_not_found-ok (some y) x h = ap some (ok-injective y x h)

or_not_found-err : {A : Type 0} (o : Option A) (e : Error) → or_not_found o ≡ err e → o ≡ none
or_not_found-err none e h = refl
or_not_found-err (some y) e h = cc

completed-cas :
    (now : Time) (op : ToolFunctionOperation) (rec : RegisteredToolFunction)
    → (completed now op rec).cas_hash ≡ rec.cas_hash
unfolding completed
completed-cas now op rec = refl

pub Writes-Written :
    (now : Time) (op : ToolFunctionOperation) (rec : RegisteredToolFunction)
    (rev : Option ToolFunctionPresentationRevision) (f : IndexFile) {r : RegisteredToolFunction}
    {new : Bool} {f' : IndexFile}
    → Writes now op rec rev f r new f'
    → Written now op rec.cas_hash f r f'
unfolding find_tool_function with_receipt
Writes-Written now op rec rev f {r} {new} {f'} (reuses k n e) = record {
  found_after = rw (ap (λ g. g.registered_tool_functions) e) (or_not_found-ok _ r k);
  functions_after = inl (ap (λ g. g.registered_tool_functions) e);
  requests_after = ap (λ g. g.tool_function_request_records) e;
}
Writes-Written now op rec rev f {r} {new} {f'} (registers z k n i e) =
    let (p, q) = functions-with_function now op r rev f in
    let fns : f'.registered_tool_functions ≡ snoc f.registered_tool_functions r =
      ap (λ g. g.registered_tool_functions) e ∙ p in
    record {
      found_after =
          rw
            (
              fns,
              find_first-snoc (has_function_cas rec.cas_hash) f.registered_tool_functions r,
              or_not_found-err _ z k,
            )
            (mine r i);
      functions_after = inr fns;
      requests_after = ap (λ g. g.tool_function_request_records) e ∙ q;
    }
  where
    mine :
        (x : RegisteredToolFunction)
        → x ≡ completed now op rec
        → (if has_function_cas rec.cas_hash x then some x else none) ≡ some x
    mine x i = simp (i, completed-cas now op rec, eq_refl rec.cas_hash)
