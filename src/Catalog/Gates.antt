-- ===== src/Catalog/Gates.antt =====
-- pkg/catalog/toolfunction.go, RegisterToolFunction: what a success says of the request and the index.
use mathlib.Core.Path.{subst}
use node_vault.Base.{
  ◌≡◌, refl, ap, String, Bool, true, Option, none, some, ◌==◌, eq_iff, arith, inl, inr,
  Option-cases,
}
use node_vault.Status.{Outcome, ok, fail, ◌>>=◌, ◌>>◌}
use node_vault.Resolve.{Provenance, effective_provenance}
use node_vault.Index.Schema.{
  IndexFile, ToolFunctionRequestRecord, ResolvedToolSpec, basis_known, RegisteredToolFunction,
}
use node_vault.Index.Errors.{Error, Result}
use node_vault.Index.Builds.{get_resolved_tool_spec_by_digest}
use node_vault.Index.Disk.{Codec, Env, World, w2_set_v1}
use node_vault.Index.Functions.{EnvelopeOf, get_tool_function_request_record}
use node_vault.Index.Functions.Register.{register_tool_function_atomic}
use node_vault.Index.Functions.Register.Durable.{Acknowledged, register_tool_function_atomic-ok}
use node_vault.Catalog.Messages.{ToolFunctionSpec, RegisterToolFunctionRequest}
use node_vault.Catalog.Validate.{Text, Check}
use node_vault.Catalog.Derive.{Encoding, ToolFunctionDerivation}
use node_vault.Catalog.Register.{
  Unknown, RegisterToolFunctionResponse, prepare, derive_checked, present_spec, select_without,
  select, check_found, base_not_found, check_canonicalization_selection, check_base, normalized,
  register_tool_function, registered, answered, response,
}

abbrev SelectedBy : String → Result ToolFunctionRequestRecord → Type 0
SelectedBy version (Result.ok prior) =
    (basis_known prior ≡ true) × (prior.canonicalization_version ≡ version)
SelectedBy version (Result.err e) = version ≡ w2_set_v1

-- The canonicalizer is the one that the receipt of the request ID proves, or w2-set-v1 without one.
abbrev pub Selected : IndexFile → String → String → Type 0
Selected f id version = SelectedBy version (get_tool_function_request_record id f)

-- The base is in the index, and its provenance is interpretable.
abbrev pub Based : IndexFile → String → Type 0
Based f base =
    (s : ResolvedToolSpec) × (p : Provenance) × (get_resolved_tool_spec_by_digest base f
      ≡ Result.ok s)
    × (effective_provenance s.raw_spec_schema_version s.derivation_version ≡ some p)

both-ok :
    {A : Type 0} {o : Check} {p : Outcome A} {a : A} → (o >> p) ≡ ok a → (o ≡ ok tt) × (p ≡ ok a)
both-ok {o = ok tt} h = (refl, h)
both-ok {o = fail c} h = cc

select-ok :
    (version : String) (r : Result ToolFunctionRequestRecord)
    → select version r ≡ ok tt
    → SelectedBy version r
select-ok version (Result.ok prior) h =
    (ground (arith, h), (eq_iff prior.canonicalization_version version).0 (ground (arith, h)))
select-ok version (Result.err e) h = (eq_iff version w2_set_v1).0 (new e h)
  where
    new : (e : Error) → select_without version e ≡ ok tt → (version == w2_set_v1) ≡ true
    new Error.not_found h = ground (arith, h)
    new e h = ground (arith, h)

check_canonicalization_selection-ok :
    (f : IndexFile) (id version : String)
    → check_canonicalization_selection f id version ≡ ok tt
    → Selected f id version
unfolding check_canonicalization_selection
check_canonicalization_selection-ok f id version h =
    select-ok version (get_tool_function_request_record id f) (both-ok h).1

check_base-ok : (f : IndexFile) (base : String) → check_base f base ≡ ok tt → Based f base
unfolding check_base
check_base-ok f base h = found (get_resolved_tool_spec_by_digest base f) refl h
  where
    found :
        (r : Result ResolvedToolSpec)
        → get_resolved_tool_spec_by_digest base f ≡ r
        → check_found r ≡ ok tt
        → Based f base
    found (Result.ok s) q k =
        elim (Option-cases (effective_provenance s.raw_spec_schema_version s.derivation_version)) [
          | inl e ↦ absurd (ground (e, k, arith))
          | inr (p, e) ↦ (s, p, q, e)
        ]
    found (Result.err e) q k = absurd (refused e k)
      where
        refused : (e : Error) → base_not_found e ≡ ok tt → ⊥
        refused e k = ground arith

derive_checked-ok :
    (g : Encoding) (t : Text) (u : Unknown) (f : IndexFile) (req : RegisterToolFunctionRequest)
    (spec : ToolFunctionSpec) {d : ToolFunctionDerivation}
    → derive_checked g t u f req spec ≡ ok d
    → Selected f req.request_id req.canonicalization_version
      × Based f (normalized t req.base_tool_spec_digest)
unfolding derive_checked
derive_checked-ok g t u f req spec h =
    let known = both-ok h in
    let based = both-ok known.0 in
    let valid = both-ok (both-ok (both-ok based.0).0).0 in
    (
      check_canonicalization_selection-ok f req.request_id req.canonicalization_version
          (both-ok valid.0).1,
      check_base-ok f (normalized t req.base_tool_spec_digest) based.1,
    )

prepare-ok :
    (g : Encoding) (t : Text) (u : Unknown) (f : IndexFile) (req : RegisterToolFunctionRequest)
    {d : ToolFunctionDerivation}
    → prepare g t u f req ≡ ok d
    → Selected f req.request_id req.canonicalization_version
      × Based f (normalized t req.base_tool_spec_digest)
unfolding prepare
prepare-ok g t u f req {d} h = spec_of req.spec (both-ok h).1
  where
    spec_of :
        (s : Option ToolFunctionSpec)
        → (present_spec s >>= derive_checked g t u f req) ≡ ok d
        → Selected f req.request_id req.canonicalization_version
          × Based f (normalized t req.base_tool_spec_digest)
    spec_of none k = absurd (cc)
    spec_of (some spec) k = derive_checked-ok g t u f req spec k

-- A registration that is answered with success used the canonicalizer that the receipt of its request
-- ID proves, or w2-set-v1 when there was no receipt, and its base tool spec was in the index under an
-- interpretable provenance.
pub register_tool_function-gated :
    (g : Encoding) (t : Text) (envelope_of : EnvelopeOf) (c : Codec) (env : Env) (u : Unknown)
    (req : RegisterToolFunctionRequest) (w : World) (r : RegisterToolFunctionResponse)
    → (register_tool_function g t envelope_of c env u req w).0 ≡ ok r
    → Selected w.store.idx req.request_id req.canonicalization_version
      × Based w.store.idx (normalized t req.base_tool_spec_digest)
unfolding register_tool_function
register_tool_function-gated g t envelope_of c env u req w r h =
    go (prepare g t u w.store.idx req) refl
  where
    go :
        (o : Outcome ToolFunctionDerivation)
        → prepare g t u w.store.idx req ≡ o
        → Selected w.store.idx req.request_id req.canonicalization_version
          × Based w.store.idx (normalized t req.base_tool_spec_digest)
    go (ok d) q = prepare-ok g t u w.store.idx req q
    go (fail code) q = absurd (let k = rw (register_tool_function, q) at h in cc)

-- A registration that is answered with success answers with the identity of a record of the index:
-- that record is found under its CasHash in memory, no durability repair is pending, and when the
-- record is new, the file holds the encoding of that very memory.
pub register_tool_function-Acknowledged :
    (g : Encoding) (t : Text) (envelope_of : EnvelopeOf) (c : Codec) (env : Env) (u : Unknown)
    (req : RegisterToolFunctionRequest) (w : World) (r : RegisterToolFunctionResponse)
    → (register_tool_function g t envelope_of c env u req w).0 ≡ ok r
    → (stored : RegisteredToolFunction) × (new : Bool) × (r
        ≡ response req.canonicalization_version stored)
      × Acknowledged c stored new (register_tool_function g t envelope_of c env u req w).1
unfolding register_tool_function
register_tool_function-Acknowledged g t envelope_of c env u req w r h =
    go (prepare g t u w.store.idx req) refl
  where
    version : String
    version = req.canonicalization_version

    stored_as :
        (d : ToolFunctionDerivation) (x : Result (RegisteredToolFunction × Bool) × World)
        → register_tool_function_atomic envelope_of c env d.op
            (registered t req d)
            d.presentation_rev
            w
          ≡ x
        → (answered version x).0 ≡ ok r
        → (stored : RegisteredToolFunction) × (new : Bool) × (r ≡ response version stored)
          × Acknowledged c stored new (answered version x).1
    stored_as d (Result.ok (stored, new), w') q k = (
      stored,
      new,
      ground (k, arith),
      subst (λ x. Acknowledged c stored new x.1) q
          (register_tool_function_atomic-ok envelope_of c env d.op (registered t req d)
            d.presentation_rev w stored new (ap (λ x. x.0) q)),
    )
    stored_as d (Result.err e, w') q k = absurd (cc)

    go :
        (o : Outcome ToolFunctionDerivation)
        → prepare g t u w.store.idx req ≡ o
        → (stored : RegisteredToolFunction) × (new : Bool) × (r ≡ response version stored)
          × Acknowledged c stored new (register_tool_function g t envelope_of c env u req w).1
    go (ok d) q =
        rw (register_tool_function, q) (stored_as d _ refl (rw (register_tool_function, q) at h))
    go (fail code) q = absurd (let k = rw (register_tool_function, q) at h in cc)
