-- ===== src/Catalog/Canonical.antt =====
-- pkg/catalog/toolfunction.go: the legacy-order-v0 canonical trees, on which w2-set-v1 builds.
use node_vault.Base.{String, Bool, true, false, Option, none, some, List, [], ◌∷◌, map}
use node_vault.Catalog.Json.{
  Json, Fields, number, flag, empty_map, as_json, put, put_str, put_int, put_bool, put_list,
  put_str_list, put_msg,
}
use node_vault.Catalog.Messages.{
  EnvironmentEntry, TimeoutPolicy, CommandContract, FunctionPortSpec, ParameterSpec,
  IntermediateFilePolicy, ExecutionEnvironmentSpec, ToolFunctionSpec, OutputPortPresentation,
  ToolFunctionPresentation, FixtureReference, ExpectedResult, ValidationRequirements,
  ToolFunctionValidationPolicy, ResourceContract, ToolFunctionEnvironmentHints,
}

abbrev pub is_present {ℓ} : {A : Type ℓ} → Option A → Bool
is_present none = false
is_present (some _) = true

abbrev pub canonical_env_entry : EnvironmentEntry → Json
canonical_env_entry e = as_json (put_str "source" e.source (put_str "name" e.name empty_map))

abbrev pub canonical_timeout : TimeoutPolicy → Fields
canonical_timeout tp =
    put_int "hard_seconds" tp.hard_seconds (put_int "soft_seconds" tp.soft_seconds empty_map)

abbrev pub put_timeout : Option TimeoutPolicy → Fields → Fields
put_timeout none m = m
put_timeout (some tp) m = put_msg "timeout_policy" true (canonical_timeout tp) m

-- The fields that stand before the set-like ones.
abbrev pub command_head : CommandContract → Fields
command_head c =
    put_str "working_directory" c.working_directory
      (put_str_list "arguments" c.arguments (put_str "executable" c.executable empty_map))

unfoldable pub canonical_command : CommandContract → Fields
canonical_command c = put_timeout c.timeout_policy (
    put_list "success_exit_codes" (map number c.success_exit_codes)
      (put_list "environment" (map canonical_env_entry c.environment) (command_head c)))

abbrev pub port_head : FunctionPortSpec → Fields
port_head p = put_str "path_placement_rule" p.path_placement_rule (
    put_str "path_or_glob" p.path_or_glob (
      put_bool "required" p.required (
        put_int "cardinality" p.cardinality
          (put_str "data_format" p.data_format (put_str "name" p.name empty_map)))))

-- One turn of the loop of `canonicalPorts`.
unfoldable pub canonical_port : FunctionPortSpec → Json
canonical_port p = as_json (
    put_str "completion_check" p.completion_check
      (put_str_list "companion_files" p.companion_files (port_head p)))

abbrev pub canonical_ports : List FunctionPortSpec → List Json
canonical_ports ports = map canonical_port ports

unfoldable pub canonical_parameter : ParameterSpec → Json
canonical_parameter p = as_json (
    put_str "mutually_exclusive_group" p.mutually_exclusive_group (
      put_str "cli_argument_mapping" p.cli_argument_mapping (
        put_bool "required" p.required (
          put_str "allowed_range" p.allowed_range (
            put_str "default_value" p.default_value
              (put_int "type" p.type (put_str "name" p.name empty_map)))))))

abbrev pub canonical_parameters : List ParameterSpec → List Json
canonical_parameters params = map canonical_parameter params

abbrev pub canonical_intermediate_policy : IntermediateFilePolicy → Json
canonical_intermediate_policy p =
    as_json (put_int "policy" p.policy (put_str "path_or_pattern" p.path_or_pattern empty_map))

abbrev pub canonical_intermediate_policies : List IntermediateFilePolicy → List Json
canonical_intermediate_policies ps = map canonical_intermediate_policy ps

unfoldable pub canonical_exec_env : ExecutionEnvironmentSpec → Fields
canonical_exec_env ee = put_str_list "required_capabilities" ee.required_capabilities (
    put_bool "requires_root" ee.requires_root (
      put_str "network_policy" ee.network_policy
        (put_str_list "writable_paths" ee.writable_paths empty_map)))

abbrev pub put_command : Option CommandContract → Fields → Fields
put_command none m = put_msg "command" false empty_map m
put_command (some c) m = put_msg "command" true (canonical_command c) m

abbrev pub put_exec_env : Option ExecutionEnvironmentSpec → Fields → Fields
put_exec_env none m = put_msg "execution_environment" false empty_map m
put_exec_env (some ee) m = put_msg "execution_environment" true (canonical_exec_env ee) m

-- `canonicalToolFunctionSpec`, which is legacy-order-v0.
unfoldable pub canonical_tool_function_spec : ToolFunctionSpec → Fields
canonical_tool_function_spec spec = put_exec_env spec.execution_environment (
    put_list "intermediate_file_policies"
      (canonical_intermediate_policies spec.intermediate_file_policies)
      (put_list "parameters" (canonical_parameters spec.parameters) (
        put_list "outputs" (canonical_ports spec.outputs)
          (put_list "inputs" (canonical_ports spec.inputs) (put_command spec.command empty_map)))))

abbrev pub canonical_fixture : FixtureReference → Json
canonical_fixture f =
    as_json
      (put_str "content_digest" f.content_digest (put_str "local_path" f.local_path empty_map))

abbrev pub canonical_result : ExpectedResult → Json
canonical_result r = as_json (
    put_str "expected_value_or_rule" r.expected_value_or_rule
      (put_str "output_port_name" r.output_port_name empty_map))

-- The loop that copies `required_coverage`.
abbrev pub coverage : List (String × Bool) → Fields → Fields
coverage [] m = m
coverage ((k, v) ∷ rest) m = coverage rest (put k (flag v) m)

abbrev pub put_coverage : List (String × Bool) → Fields → Fields
put_coverage [] m = m
put_coverage (kv ∷ rest) m = put "required_coverage" (as_json (coverage (kv ∷ rest) empty_map)) m

abbrev pub put_requirements : Option ValidationRequirements → Fields → Fields
put_requirements none m = m
put_requirements (some vr) m =
    put_msg "validation_requirements" true
      (put_coverage vr.required_coverage
        (put_int "minimum_observation_level" vr.minimum_observation_level empty_map))
      m

unfoldable pub canonical_validation_policy : Option ToolFunctionValidationPolicy → Fields
canonical_validation_policy none = empty_map
canonical_validation_policy (some vp) = put_requirements vp.validation_requirements (
    put_list "expected_results" (map canonical_result vp.expected_results)
      (put_list "fixture_references" (map canonical_fixture vp.fixture_references) empty_map))

abbrev pub canonical_resources : ResourceContract → Fields
canonical_resources rc = put_int "parallelism" rc.parallelism (
    put_int "max_execution_time_seconds" rc.max_execution_time_seconds (
      put_str "storage_limit" rc.storage_limit (
        put_str "storage_request" rc.storage_request (
          put_str "memory_limit" rc.memory_limit (
            put_str "memory_request" rc.memory_request (
              put_str "cpu_limit" rc.cpu_limit
                (put_str "cpu_request" rc.cpu_request empty_map)))))))

abbrev pub put_resources : Option ResourceContract → Fields → Fields
put_resources none m = m
put_resources (some rc) m = put_msg "enforced_resources" true (canonical_resources rc) m

unfoldable pub canonical_environment_hints : Option ToolFunctionEnvironmentHints → Fields
canonical_environment_hints none = empty_map
canonical_environment_hints (some eh) =
    put_resources eh.enforced_resources
      (put_str_list "supported_platforms" eh.supported_platforms empty_map)

abbrev pub canonical_port_presentation : OutputPortPresentation → Json
canonical_port_presentation opp = as_json (
    put_str "downstream_compatibility_note" opp.downstream_compatibility_note
      (put_str "port_name" opp.port_name empty_map))

unfoldable pub canonical_presentation : Option ToolFunctionPresentation → Fields
canonical_presentation none = empty_map
canonical_presentation (some p) =
    put_list "output_port_presentations"
      (map canonical_port_presentation p.output_port_presentations)
      (put_str "locale" p.locale (
        put_str_list "tags" p.tags (
          put_str "category" p.category (
            put_str "description" p.description
              (put_str "short_summary" p.short_summary (put_str "label" p.label empty_map))))))
