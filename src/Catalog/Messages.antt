-- ===== src/Catalog/Messages.antt =====
-- protos/nodevault/v1/nodevault.proto: the messages of RegisterToolFunction. A singular message that
-- is not on the wire is `none`, and an enum is the number on the wire. The unknown fields of a
-- message are not part of it.
use node_vault.Base.{ℤ, String, Bool, Option, List}

pub record EnvironmentEntry : Type 0 where
  pub name : String
  pub source : String

pub record TimeoutPolicy : Type 0 where
  pub soft_seconds : ℤ
  pub hard_seconds : ℤ

pub record CommandContract : Type 0 where
  pub executable : String
  pub arguments : List String
  pub working_directory : String
  pub environment : List EnvironmentEntry
  pub success_exit_codes : List ℤ
  pub timeout_policy : Option TimeoutPolicy

pub record FunctionPortSpec : Type 0 where
  pub name : String
  pub data_format : String
  pub cardinality : ℤ
  pub required : Bool
  pub path_or_glob : String
  pub path_placement_rule : String
  pub companion_files : List String
  pub completion_check : String

pub record ParameterSpec : Type 0 where
  pub name : String
  pub type : ℤ
  pub default_value : String
  pub allowed_range : String
  pub required : Bool
  pub cli_argument_mapping : String
  pub mutually_exclusive_group : String

pub record IntermediateFilePolicy : Type 0 where
  pub path_or_pattern : String
  pub policy : ℤ

pub record ExecutionEnvironmentSpec : Type 0 where
  pub writable_paths : List String
  pub network_policy : String
  pub requires_root : Bool
  pub required_capabilities : List String

pub record ToolFunctionSpec : Type 0 where
  pub command : Option CommandContract
  pub inputs : List FunctionPortSpec
  pub outputs : List FunctionPortSpec
  pub parameters : List ParameterSpec
  pub intermediate_file_policies : List IntermediateFilePolicy
  pub execution_environment : Option ExecutionEnvironmentSpec

pub record OutputPortPresentation : Type 0 where
  pub port_name : String
  pub downstream_compatibility_note : String

pub record ToolFunctionPresentation : Type 0 where
  pub label : String
  pub short_summary : String
  pub description : String
  pub category : String
  pub tags : List String
  pub locale : String
  pub output_port_presentations : List OutputPortPresentation

pub record FixtureReference : Type 0 where
  pub local_path : String
  pub content_digest : String

pub record ExpectedResult : Type 0 where
  pub output_port_name : String
  pub expected_value_or_rule : String

pub record ValidationRequirements : Type 0 where
  pub minimum_observation_level : ℤ
  pub required_coverage : List (String × Bool)

pub record ToolFunctionValidationPolicy : Type 0 where
  pub fixture_references : List FixtureReference
  pub expected_results : List ExpectedResult
  pub validation_requirements : Option ValidationRequirements

pub record ResourceContract : Type 0 where
  pub cpu_request : String
  pub cpu_limit : String
  pub memory_request : String
  pub memory_limit : String
  pub storage_request : String
  pub storage_limit : String
  pub max_execution_time_seconds : ℤ
  pub parallelism : ℤ

pub record ToolFunctionEnvironmentHints : Type 0 where
  pub supported_platforms : List String
  pub enforced_resources : Option ResourceContract

pub record RegisterToolFunctionRequest : Type 0 where
  pub request_id : String
  pub canonicalization_version : String
  pub base_tool_spec_digest : String
  pub image_digest : String
  pub spec : Option ToolFunctionSpec
  pub presentation : Option ToolFunctionPresentation
  pub validation_policy : Option ToolFunctionValidationPolicy
  pub environment_hints : Option ToolFunctionEnvironmentHints
