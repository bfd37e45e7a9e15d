-- ===== src/Index/Functions.antt =====
-- pkg/index/store.go, the runnable ToolFunctions: their atomic registration with the presentation
-- and the receipt of the operation, its two axes of idempotency, and the durability repair.
pub mod Writes
pub mod Register
pub mod Idempotence
pub mod Answers
mod Examples
use node_vault.Base.{
  Time, String, Bool, true, false, not, ◌&&◌, ◌||◌, Option, none, some, List, [], ◌∷◌, ◌==◌,
  is_empty, or_now, or_text, find_first, snoc, if◌then◌else◌,
}
use node_vault.Index.Schema.{
  IndexFile, RegisteredToolFunction, ToolFunctionPresentationRevision, ToolFunctionRequestRecord,
  ToolFunctionOperation, ArtifactKind, LifecyclePhase, basis_known, complete,
}
use node_vault.Index.Errors.{
  Error, Result, ok, err, not_found, request_conflict, request_unknown_legacy, identity_ambiguous,
  envelope_conflict, incomplete_operation, inconsistent, empty_key, persisted_not_durable,
}
use node_vault.Index.Sections.{or_not_found}
use node_vault.Index.Disk.{
  Codec, Env, M, World, PersistStep, ◌>>=◌, ◌>>◌, pure, raise, with_idx, persist_locked,
  lock_writer,
}
use node_vault.Index.Save.{begin_write}

-- `toolFunctionEnvelope`; a field that the basis does not have is `none`.
pub record Envelope : Type 0 where
  pub validation_policy : Option String
  pub environment_hints : Option String

-- `toolFunctionEnvelopeOf`: json.Unmarshal, which the source only calls, and its failure.
abbrev pub EnvelopeOf : Type 0
EnvelopeOf = String → Result Envelope

abbrev pub raw_eq : Option String → Option String → Bool
raw_eq none none = true
raw_eq none (some b) = is_empty b
raw_eq (some a) none = is_empty a
raw_eq (some a) (some b) = a == b

abbrev pub has_request_id : String → ToolFunctionRequestRecord → Bool
has_request_id id r = r.request_id == id

unfoldable pub find_tool_function_request : String → IndexFile → Option ToolFunctionRequestRecord
find_tool_function_request id f =
    if is_empty id then none else find_first (has_request_id id) f.tool_function_request_records

abbrev pub has_function_cas : String → RegisteredToolFunction → Bool
has_function_cas cas r = r.cas_hash == cas

unfoldable pub find_tool_function : String → IndexFile → Result RegisteredToolFunction
find_tool_function cas f =
    or_not_found (find_first (has_function_cas cas) f.registered_tool_functions)

unfoldable pub get_tool_function_presentation_revision :
    String → IndexFile → Result ToolFunctionPresentationRevision
get_tool_function_presentation_revision id f =
    or_not_found (find_first (λ r. r.revision_id == id) f.tool_function_presentation_revisions)

unfoldable pub get_tool_function_request_record :
    String → IndexFile → Result ToolFunctionRequestRecord
get_tool_function_request_record id f =
    or_not_found (find_first (has_request_id id) f.tool_function_request_records)

-- The three texts of the operation are those of the receipt.
abbrev pub same_basis : ToolFunctionRequestRecord → ToolFunctionOperation → Bool
same_basis r op =
    r.canonicalization_version == op.canonicalization_version
    && (r.request_fingerprint == op.request_fingerprint
        && r.request_basis_json == op.request_basis_json)

-- `resolveToolFunctionRequestLocked`: `none` when the request ID is new.
unfoldable pub resolve_tool_function_request :
    ToolFunctionOperation → String → IndexFile → Option (Result RegisteredToolFunction)
unfolding find_tool_function
resolve_tool_function_request op cas f = elim (find_tool_function_request op.request_id f) [
  | none ↦ none
  | some prior ↦ some (
      if not (basis_known prior)
      then err request_unknown_legacy
      else if not (same_basis prior op && prior.cas_hash == cas)
      then err request_conflict
      else elim (find_tool_function prior.cas_hash f) [
        | ok existing ↦ ok existing
        | err e ↦ err inconsistent
      ])
]

-- The receipt that a record was registered with, when it proves its basis.
unfoldable pub provable_origin :
    RegisteredToolFunction → IndexFile → Option ToolFunctionRequestRecord
provable_origin existing f =
    if is_empty existing.canonicalization_version
    then none
    else elim (find_tool_function_request existing.request_id f) [
      | none ↦ none
      | some origin ↦ if basis_known origin then some origin else none
    ]

-- `proveToolFunctionReuseLocked`
unfoldable pub prove_tool_function_reuse :
    ToolFunctionOperation → RegisteredToolFunction → IndexFile → Result (Unit {0})
unfolding provable_origin
prove_tool_function_reuse op existing f = elim (provable_origin existing f) [
  | none ↦ err identity_ambiguous
  | some origin ↦ if same_basis origin op then ok tt else err identity_ambiguous
]

abbrev pub same_envelope : Envelope → Envelope → Bool
same_envelope have want =
    raw_eq have.validation_policy want.validation_policy
    && raw_eq have.environment_hints want.environment_hints

-- One turn of the loop of `checkToolFunctionEnvelopeLocked`, on a record of the same digest.
unfoldable pub check_record_envelope :
    EnvelopeOf → Envelope → RegisteredToolFunction → IndexFile → Result (Unit {0})
unfolding provable_origin
check_record_envelope envelope_of want existing f = elim (provable_origin existing f) [
  | none ↦ err identity_ambiguous
  | some origin ↦ elim (envelope_of origin.request_basis_json) [
    | err e ↦ err e
    | ok have ↦ if same_envelope have want then ok tt else err envelope_conflict
  ]
]

unfoldable pub check_envelopes :
    EnvelopeOf → Envelope → String → List RegisteredToolFunction → IndexFile → Result (Unit {0})
unfolding check_record_envelope
check_envelopes envelope_of want digest [] f = ok tt
check_envelopes envelope_of want digest (r ∷ rs) f =
    let rest = check_envelopes envelope_of want digest rs f in
    if not (r.tool_function_digest == digest)
    then rest
    else elim (check_record_envelope envelope_of want r f) [ ok _ ↦ rest | err e ↦ err e ]

unfoldable pub check_tool_function_envelope :
    EnvelopeOf → ToolFunctionOperation → String → IndexFile → Result (Unit {0})
unfolding check_envelopes
check_tool_function_envelope envelope_of op digest f =
    if is_empty digest then ok tt else elim (envelope_of op.request_basis_json) [
      | err e ↦ err e
      | ok want ↦ check_envelopes envelope_of want digest f.registered_tool_functions f
    ]

-- `appendToolFunctionRequestRecordLocked`
abbrev pub receipt :
    Time → ToolFunctionOperation → RegisteredToolFunction → ToolFunctionRequestRecord
receipt now op rec = record {
  request_id = op.request_id;
  cas_hash = rec.cas_hash;
  tool_function_digest = rec.tool_function_digest;
  presentation_revision_id = rec.presentation_revision_id;
  canonicalization_version = op.canonicalization_version;
  request_fingerprint = op.request_fingerprint;
  request_basis_json = op.request_basis_json;
  created_at = now;
}

unfoldable pub with_receipt :
    Time → ToolFunctionOperation → RegisteredToolFunction → IndexFile → IndexFile
with_receipt now op rec f = record f {
  tool_function_request_records = snoc f.tool_function_request_records (receipt now op rec);
}

abbrev dated_revision : Time → ToolFunctionPresentationRevision → ToolFunctionPresentationRevision
dated_revision now r = record r { created_at = or_now now r.created_at }

-- `appendPresentationRevisionLocked`
unfoldable pub with_revision :
    Time → Option ToolFunctionPresentationRevision → IndexFile → IndexFile
with_revision now none f = f
with_revision now (some rev) f =
    if is_empty rev.revision_id
    then f
    else elim (find_first (λ r. r.revision_id == rev.revision_id)
        f.tool_function_presentation_revisions) [
          | some _ ↦ f
          | none ↦ record f {
            tool_function_presentation_revisions =
                snoc f.tool_function_presentation_revisions (dated_revision now rev);
          }
        ]

abbrev or_active : LifecyclePhase → LifecyclePhase
or_active LifecyclePhase.unset = LifecyclePhase.active
or_active LifecyclePhase.pending = LifecyclePhase.pending
or_active LifecyclePhase.active = LifecyclePhase.active
or_active LifecyclePhase.retracted = LifecyclePhase.retracted
or_active LifecyclePhase.deleted = LifecyclePhase.deleted

abbrev or_tool_function : ArtifactKind → ArtifactKind
or_tool_function ArtifactKind.unset = ArtifactKind.tool_function
or_tool_function ArtifactKind.tool = ArtifactKind.tool
or_tool_function ArtifactKind.dataset = ArtifactKind.dataset
or_tool_function ArtifactKind.tool_function = ArtifactKind.tool_function

-- The defaults of a new registration.
unfoldable pub completed :
    Time → ToolFunctionOperation → RegisteredToolFunction → RegisteredToolFunction
completed now op rec = record rec {
  request_id = or_text op.request_id rec.request_id;
  canonicalization_version = or_text op.canonicalization_version rec.canonicalization_version;
  registered_at = or_now now rec.registered_at;
  lifecycle_updated_at = or_now now rec.lifecycle_updated_at;
  lifecycle_phase = or_active rec.lifecycle_phase;
  artifact_kind = or_tool_function rec.artifact_kind;
}

unfoldable pub with_function :
    Time
    → ToolFunctionOperation
    → RegisteredToolFunction
    → Option ToolFunctionPresentationRevision
    → IndexFile
    → IndexFile
unfolding with_receipt with_revision
with_function now op rec rev f = with_receipt now op rec (
    with_revision now rev
      (record f { registered_tool_functions = snoc f.registered_tool_functions rec }))

-- What a registration means to do to the index, once the writer may write: an answer that needs no
-- write, a refusal, or the index to persist with the record to answer and whether it is new.
pub data Plan : Type 0 where
  replays : RegisteredToolFunction → Plan
  refuses : Error → Plan
  persists : RegisteredToolFunction → Bool → IndexFile → Plan

unfoldable pub plan_content :
    Time
    → ToolFunctionOperation
    → RegisteredToolFunction
    → Option ToolFunctionPresentationRevision
    → IndexFile
    → Plan
unfolding find_tool_function prove_tool_function_reuse with_receipt completed with_function
plan_content now op rec rev f = elim (find_tool_function rec.cas_hash f) [
  | ok existing ↦ elim (prove_tool_function_reuse op existing f) [
    | err e ↦ refuses e
    | ok _ ↦ persists existing false (with_receipt now op existing f)
  ]
  | err _ ↦ let new = completed now op rec in persists new true (with_function now op new rev f)
]

unfoldable pub plan_register :
    EnvelopeOf
    → Time
    → ToolFunctionOperation
    → RegisteredToolFunction
    → Option ToolFunctionPresentationRevision
    → IndexFile
    → Plan
unfolding resolve_tool_function_request check_tool_function_envelope plan_content
plan_register envelope_of now op rec rev f =
    if is_empty rec.cas_hash
    then refuses empty_key
    else elim (resolve_tool_function_request op rec.cas_hash f) [
      | some (ok existing) ↦ replays existing
      | some (err e) ↦ refuses e
      | none ↦ elim (check_tool_function_envelope envelope_of op rec.tool_function_digest f) [
        | err e ↦ refuses e
        | ok _ ↦ plan_content now op rec rev f
      ]
    ]
