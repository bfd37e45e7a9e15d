-- ===== src/Index/Schema/Functions.antt =====
-- pkg/index/schema.go: runnable ToolFunctions, their presentations and the operation receipts.
use node_vault.Base.{Time, String, Bool, not, ◌&&◌, is_empty}
use node_vault.Index.Schema.Artifacts.{ArtifactKind, LifecyclePhase, IntegrityHealth}

pub record RegisteredToolFunction : Type 0 where
  pub cas_hash : String
  pub tool_function_digest : String
  pub function_image_digest : String
  pub base_tool_spec_digest : String
  pub artifact_kind : ArtifactKind
  pub presentation_revision_id : String
  pub request_id : String
  pub canonicalization_version : String
  pub lifecycle_phase : LifecyclePhase
  pub integrity_health : IntegrityHealth
  pub registered_at : Time
  pub lifecycle_updated_at : Time

pub record ToolFunctionPresentationRevision : Type 0 where
  pub revision_id : String
  pub cas_hash : String
  pub presentation_json : String
  pub created_at : Time

pub record ToolFunctionRequestRecord : Type 0 where
  pub request_id : String
  pub cas_hash : String
  pub tool_function_digest : String
  pub presentation_revision_id : String
  pub canonicalization_version : String
  pub request_fingerprint : String
  pub request_basis_json : String
  pub created_at : Time

-- `ToolFunctionRequestRecord.BasisKnown`
abbrev pub basis_known : ToolFunctionRequestRecord → Bool
basis_known r =
    not (is_empty r.canonicalization_version)
    && (not (is_empty r.request_fingerprint) && not (is_empty r.request_basis_json))

pub record ToolFunctionOperation : Type 0 where
  pub request_id : String
  pub canonicalization_version : String
  pub request_fingerprint : String
  pub request_basis_json : String

-- `ToolFunctionOperation.complete`
abbrev pub complete : ToolFunctionOperation → Bool
complete op =
    not (is_empty op.request_id)
    && (not (is_empty op.canonicalization_version)
        && (not (is_empty op.request_fingerprint) && not (is_empty op.request_basis_json)))
