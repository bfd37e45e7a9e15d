-- ===== src/Index/Functions/Answers.antt =====
-- The records that a registration answers with are records of the index.
use node_vault.Base.{
  Time, ◌≡◌, refl, ◌∙◌, ap, inl, inr, String, Bool, true, false, Option, none, some, arith, eq_iff,
  is_empty, find_first, find_first-true, Option-cases,
}
use node_vault.Index.Schema.{
  IndexFile, RegisteredToolFunction, ToolFunctionPresentationRevision, ToolFunctionRequestRecord,
  ToolFunctionOperation,
}
use node_vault.Index.Errors.{Result, ok, err, Result-cases}
use node_vault.Index.Functions.{
  EnvelopeOf, replays, persists, plan_register, find_tool_function, find_tool_function_request,
  plan_content, prove_tool_function_reuse, check_tool_function_envelope, has_function_cas,
  resolve_tool_function_request,
}
use node_vault.Index.Functions.Writes.{or_not_found-ok}
use node_vault.Index.Functions.Idempotence.{written, found_after-own}

-- The answer of a registration is a record of the index, under its own CasHash.
pub plan_register-keeps_own :
    (envelope_of : EnvelopeOf) (now : Time) (op : ToolFunctionOperation)
    (rec : RegisteredToolFunction) (rev : Option ToolFunctionPresentationRevision) (f : IndexFile)
    {r : RegisteredToolFunction} {new : Bool} {f' : IndexFile}
    → plan_register envelope_of now op rec rev f ≡ persists r new f'
    → find_tool_function r.cas_hash f' ≡ ok r
plan_register-keeps_own envelope_of now op rec rev f {r} {new} {f'} q =
    let w = written envelope_of now op rec rev f q in
    ap (λ c. find_tool_function c f')
      ((eq_iff r.cas_hash rec.cas_hash).0 (
        find_first-true (has_function_cas rec.cas_hash) f'.registered_tool_functions r
          w.found_after))
    ∙ found_after-own now op rec.cas_hash f f' r w

found-own :
    (cas : String) (f : IndexFile) (r : RegisteredToolFunction)
    → find_tool_function cas f ≡ ok r
    → find_tool_function r.cas_hash f ≡ ok r
unfolding find_tool_function
found-own cas f r h =
    let at : find_first (has_function_cas cas) f.registered_tool_functions ≡ some r =
      or_not_found-ok _ r h in
    ap (λ c. find_tool_function c f)
      ((eq_iff r.cas_hash cas).0
        (find_first-true (has_function_cas cas) f.registered_tool_functions r at))
    ∙ h

resolve-own :
    (op : ToolFunctionOperation) (cas : String) (f : IndexFile) (r : RegisteredToolFunction)
    → resolve_tool_function_request op cas f ≡ some (ok r)
    → find_tool_function r.cas_hash f ≡ ok r
unfolding resolve_tool_function_request
resolve-own op cas f r h = elim (Option-cases (find_tool_function_request op.request_id f)) [
  | inl q ↦ absurd (ground (h, q, arith))
  | inr (prior, q) ↦
      found-own prior.cas_hash f r (looked prior q (find_tool_function prior.cas_hash f) refl)
]
  where
    looked :
        (prior : ToolFunctionRequestRecord)
        → find_tool_function_request op.request_id f ≡ some prior
        → (m : Result RegisteredToolFunction) → find_tool_function prior.cas_hash f ≡ m
        → find_tool_function prior.cas_hash f ≡ ok r
    looked prior q (ok x) e = ground (h, q, e, arith)
    looked prior q (err z) e = absurd (ground (h, q, e, arith))

never :
    (now : Time) (op : ToolFunctionOperation) (rec : RegisteredToolFunction)
    (rev : Option ToolFunctionPresentationRevision) (f : IndexFile) (r : RegisteredToolFunction)
    → plan_content now op rec rev f ≡ replays r
    → ⊥
unfolding plan_content
never now op rec rev f r h = elim (Result-cases (find_tool_function rec.cas_hash f)) [
  | inl (x, q) ↦ elim (Result-cases (prove_tool_function_reuse op x f)) [
    | inl (_, k) ↦ ground (h, q, k, arith)
    | inr (e, k) ↦ ground (h, q, k, arith)
  ]
  | inr (e, q) ↦ ground (h, q, arith)
]

pub plan_register-replays :
    (envelope_of : EnvelopeOf) (now : Time) (op : ToolFunctionOperation)
    (rec : RegisteredToolFunction) (rev : Option ToolFunctionPresentationRevision) (f : IndexFile)
    {r : RegisteredToolFunction}
    → plan_register envelope_of now op rec rev f ≡ replays r
    → find_tool_function r.cas_hash f ≡ ok r
unfolding plan_register
plan_register-replays envelope_of now op rec rev f {r} h = resolve-own op rec.cas_hash f r (
    replayed (is_empty rec.cas_hash) refl (resolve_tool_function_request op rec.cas_hash f) refl
      (check_tool_function_envelope envelope_of op rec.tool_function_digest f) refl)
  where
    replayed :
        (b : Bool)
        → is_empty rec.cas_hash ≡ b
        → (m : Option (Result RegisteredToolFunction))
        → resolve_tool_function_request op rec.cas_hash f ≡ m
        → (k : Result (Unit {0}))
        → check_tool_function_envelope envelope_of op rec.tool_function_digest f ≡ k
        → resolve_tool_function_request op rec.cas_hash f ≡ some (ok r)
    replayed true e m g k j = absurd (ground (e, h, arith))
    replayed false e (some (ok x)) g k j = ground (e, g, h, arith)
    replayed false e (some (err x)) g k j = absurd (ground (e, g, h, arith))
    replayed false e none g (err x) j = absurd (ground (e, g, j, h, arith))
    replayed false e none g (ok _) j = absurd (never now op rec rev f r (simp (e, g, j) at h))
