-- ===== src/Catalog/Register.antt =====
-- pkg/catalog/toolfunction.go, RegisterToolFunction: from the request to the registration of the
-- index, and the status that each failure is answered with. The request and the store are there (a nil
-- one is refused at once), and protoreflect's walks are parameters.
use node_vault.Base.{
  ℤ, pos, String, Bool, not, ◌||◌, Option, none, some, ◌==◌, is_empty, if◌then◌else◌,
}
use node_vault.Status.{
  Outcome, ok, fail, Code, invalid_argument, not_found, failed_precondition, already_exists,
  internal, ◌>>=◌, ◌>>◌,
}
use node_vault.Resolve.{Provenance, effective_provenance, is_sha256_digest}
use node_vault.Index.Schema.{
  IndexFile, RegisteredToolFunction, ToolFunctionRequestRecord, ResolvedToolSpec, ArtifactKind,
  LifecyclePhase, IntegrityHealth, basis_known,
}
use node_vault.Index.Errors.{Error, Result}
use node_vault.Index.Builds.{get_resolved_tool_spec_by_digest}
use node_vault.Index.Disk.{Codec, Env, World, w2_set_v1}
use node_vault.Index.Functions.{EnvelopeOf, get_tool_function_request_record}
use node_vault.Index.Functions.Register.{register_tool_function_atomic}
use node_vault.Catalog.Messages.{
  ToolFunctionSpec, ToolFunctionValidationPolicy, RegisterToolFunctionRequest,
}
use node_vault.Catalog.Validate.{
  Text, Check, refuse_when, is_member, legacy_order_v0, validate_tool_function_spec,
  validate_tool_function_presentation, validate_tool_function_validation_policy,
}
use node_vault.Catalog.Derive.{Encoding, ToolFunctionDerivation, derive_tool_function}

-- Which parts of the request carry fields that their descriptors do not have, as `GetUnknown` and
-- `firstUnknownField` find them.
pub record Unknown : Type 0 where
  pub top_level : Bool
  pub spec : Bool
  pub presentation : Bool
  pub validation_policy : Bool
  pub environment_hints : Bool

abbrev pub observation_level : Option ToolFunctionValidationPolicy → ℤ
observation_level none = pos 0
observation_level (some vp) = elim vp.validation_requirements [
  | none ↦ pos 0
  | some r ↦ r.minimum_observation_level
]

-- `rejectUnknownRequestFields`, with the gates of the parts.
unfoldable pub reject_unknown_request_fields : Unknown → RegisterToolFunctionRequest → Check
reject_unknown_request_fields u req =
    refuse_when u.top_level
    >> refuse_when u.spec
    >> refuse_when u.presentation
    >> refuse_when u.validation_policy
    >> refuse_when (not (is_member 3 (observation_level req.validation_policy)))
    >> refuse_when u.environment_hints

-- The answer when the request ID has no receipt.
abbrev pub select_new : String → Check
select_new version =
    if version == w2_set_v1
    then ok tt
    else if is_empty version
    then fail invalid_argument
    else fail failed_precondition

abbrev pub select_replay : String → ToolFunctionRequestRecord → Check
select_replay version prior =
    if not (basis_known prior)
    then fail failed_precondition
    else if not (prior.canonicalization_version == version)
    then fail already_exists
    else ok tt

abbrev pub select_without : String → Error → Check
select_without version e = elim e [ Error.not_found ↦ select_new version | _ ↦ fail internal ]

abbrev pub select : String → Result ToolFunctionRequestRecord → Check
select version (Result.ok prior) = select_replay version prior
select version (Result.err e) = select_without version e

-- `checkCanonicalizationSelection`
unfoldable pub check_canonicalization_selection : IndexFile → String → String → Check
unfolding get_tool_function_request_record
check_canonicalization_selection f id version =
    refuse_when (not (is_empty version || (version == w2_set_v1 || version == legacy_order_v0)))
    >> select version (get_tool_function_request_record id f)

-- `toolFunctionStoreError`
unfoldable pub tool_function_store_error : Error → Code
tool_function_store_error e = elim e [
  | Error.request_conflict ↦ already_exists
  | Error.envelope_conflict ↦ already_exists
  | Error.request_unknown_legacy ↦ failed_precondition
  | Error.identity_ambiguous ↦ failed_precondition
  | Error.writer_fenced ↦ failed_precondition
  | Error.reloaded ↦ failed_precondition
  | _ ↦ internal
]

abbrev pub check_provenance : Option Provenance → Check
check_provenance none = fail failed_precondition
check_provenance (some p) = ok tt

abbrev pub base_not_found : Error → Check
base_not_found e = elim e [ Error.not_found ↦ fail not_found | _ ↦ fail internal ]

abbrev pub check_found : Result ResolvedToolSpec → Check
unfolding effective_provenance
check_found (Result.ok s) =
    check_provenance (effective_provenance s.raw_spec_schema_version s.derivation_version)
check_found (Result.err e) = base_not_found e

-- The lookup of the base, and the guard on its provenance.
unfoldable pub check_base : IndexFile → String → Check
unfolding get_resolved_tool_spec_by_digest effective_provenance
check_base f base = check_found (get_resolved_tool_spec_by_digest base f)

abbrev pub present_spec : Option ToolFunctionSpec → Outcome ToolFunctionSpec
present_spec none = fail invalid_argument
present_spec (some spec) = ok spec

abbrev pub normalized : Text → String → String
normalized t digest = t.to_lower (t.trim_space digest)

-- The checks that need the declaration, and the derivation.
unfoldable pub derive_checked :
    Encoding
    → Text
    → Unknown
    → IndexFile
    → RegisterToolFunctionRequest
    → ToolFunctionSpec
    → Outcome ToolFunctionDerivation
unfolding check_canonicalization_selection check_base
derive_checked g t u f req spec =
    reject_unknown_request_fields u req
    >> check_canonicalization_selection f req.request_id req.canonicalization_version
    >> validate_tool_function_spec g.marshal t spec req.canonicalization_version
    >> validate_tool_function_presentation t req.presentation spec
    >> validate_tool_function_validation_policy req.validation_policy spec
    >> check_base f (normalized t req.base_tool_spec_digest)
    >> derive_tool_function g req.canonicalization_version (normalized t req.base_tool_spec_digest)
        (normalized t req.image_digest) req spec

-- All that comes before the registration of the index, which it reads but does not write.
unfoldable pub prepare :
    Encoding
    → Text
    → Unknown
    → IndexFile
    → RegisterToolFunctionRequest
    → Outcome ToolFunctionDerivation
unfolding derive_checked
prepare g t u f req =
    refuse_when (is_empty req.request_id)
    >> refuse_when (is_empty (normalized t req.base_tool_spec_digest))
    >> refuse_when (not (t.is_base_digest (normalized t req.base_tool_spec_digest)))
    >> refuse_when
        (not (is_sha256_digest t.is_image_digest t.trim_space (normalized t req.image_digest)))
    >> (present_spec req.spec >>= derive_checked g t u f req)

abbrev pub registered :
    Text → RegisterToolFunctionRequest → ToolFunctionDerivation → RegisteredToolFunction
registered t req d = record {
  cas_hash = d.cas_hash;
  tool_function_digest = d.tool_function_digest;
  function_image_digest = normalized t req.image_digest;
  base_tool_spec_digest = normalized t req.base_tool_spec_digest;
  artifact_kind = ArtifactKind.tool_function;
  presentation_revision_id = d.presentation_rev_id;
  request_id = req.request_id;
  canonicalization_version = req.canonicalization_version;
  lifecycle_phase = LifecyclePhase.active;
  integrity_health = IntegrityHealth.partial;
  registered_at = 0;
  lifecycle_updated_at = 0;
}

pub record RegisterToolFunctionResponse : Type 0 where
  pub tool_function_digest : String
  pub presentation_revision_id : String
  pub cas_hash : String
  pub canonicalization_version : String

abbrev pub response : String → RegisteredToolFunction → RegisterToolFunctionResponse
response version stored = record {
  tool_function_digest = stored.tool_function_digest;
  presentation_revision_id = stored.presentation_revision_id;
  cas_hash = stored.cas_hash;
  canonicalization_version = version;
}

abbrev pub answered :
    String
    → Result (RegisteredToolFunction × Bool) × World
    → Outcome RegisterToolFunctionResponse × World
answered version (Result.ok (stored, _), w) = (ok (response version stored), w)
answered version (Result.err e, w) = (fail (tool_function_store_error e), w)

-- `RegisterToolFunction`
unfoldable pub register_tool_function :
    Encoding
    → Text
    → EnvelopeOf
    → Codec
    → Env
    → Unknown
    → RegisterToolFunctionRequest
    → World
    → Outcome RegisterToolFunctionResponse × World
unfolding prepare register_tool_function_atomic tool_function_store_error
register_tool_function g t envelope_of c env u req w = elim (prepare g t u w.store.idx req) [
  | fail code ↦ (fail code, w)
  | ok d ↦ answered req.canonicalization_version (
      register_tool_function_atomic envelope_of c env d.op (registered t req d) d.presentation_rev
        w)
]
