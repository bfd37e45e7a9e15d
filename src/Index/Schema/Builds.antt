-- ===== src/Index/Schema/Builds.antt =====
-- pkg/index/schema.go: resolved specs, builds and pushed images.
use node_vault.Base.{Time, String, Bool, Option}

pub record ResolvedToolSpec : Type 0 where
  pub tool_spec_digest : String
  pub tool_name : String
  pub version : String
  pub raw_spec : String
  pub recipe_inputs_digest : String
  pub build_plan_digest : String
  pub builder_identity : String
  pub base_image_ref : String
  pub base_image_digest : String
  pub raw_spec_schema_version : String
  pub derivation_version : String
  pub resolved_at : Time

pub record BuildExecution : Type 0 where
  pub mode : String
  pub host_users : Option Bool
  pub storage_driver : String
  pub isolation : String
  pub cache_ref : String
  pub layer_cache_hit : Option Bool

pub record ToolBuildRecord : Type 0 where
  pub build_id : String
  pub tool_spec_digest : String
  pub image_digest : String
  pub backend : String
  pub execution : Option BuildExecution
  pub started_at : Time
  pub completed_at : Time
  pub success : Bool
  pub failure_reason : String

pub record ToolImageRecord : Type 0 where
  pub image_digest : String
  pub image_ref : String
  pub tool_spec_digest : String
  pub build_id : String
  pub pushed_at : Time
  pub platform : String
