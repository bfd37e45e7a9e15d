-- ===== src/Index/Schema.antt =====
-- pkg/index/schema.go: the records of the index file, one child for each group of sections.
mod Artifacts
mod Builds
mod Evidence
mod Certified
mod Requests
mod Functions
pub use Artifacts.*
pub use Builds.*
pub use Evidence.*
pub use Certified.*
pub use Requests.*
pub use Functions.*
use node_vault.Base.{ℕ, List, []}

-- `schemaVersion` of store.go.
abbrev pub schema_version : ℕ
schema_version = 7

-- `indexFile`, the content of vault-index.json.
pub record IndexFile : Type 0 where
  pub schema : ℕ
  pub entries : List Entry
  pub resolved_tool_specs : List ResolvedToolSpec
  pub tool_build_records : List ToolBuildRecord
  pub tool_image_records : List ToolImageRecord
  pub tool_check_records : List ToolCheckRecord
  pub tool_scan_records : List ToolScanRecord
  pub certified_tool_image_records : List CertifiedToolImageRecord
  pub tool_function_catalog_entries : List ToolFunctionCatalogEntry
  pub validation_request_records : List ValidationRequestRecord
  pub registered_tool_functions : List RegisteredToolFunction
  pub tool_function_presentation_revisions : List ToolFunctionPresentationRevision
  pub tool_function_request_records : List ToolFunctionRequestRecord

-- `&indexFile{SchemaVersion: schemaVersion}`, what `load` makes of a file that is not there.
abbrev pub empty_index : IndexFile
empty_index = record {
  schema = schema_version;
  entries = [];
  resolved_tool_specs = [];
  tool_build_records = [];
  tool_image_records = [];
  tool_check_records = [];
  tool_scan_records = [];
  certified_tool_image_records = [];
  tool_function_catalog_entries = [];
  validation_request_records = [];
  registered_tool_functions = [];
  tool_function_presentation_revisions = [];
  tool_function_request_records = [];
}
