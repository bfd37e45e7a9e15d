-- ===== src/Catalog/Validate.antt =====
-- pkg/catalog/toolfunction.go: the checks of a declaration, each of which refuses before anything is
-- written. The regular expressions and strings.TrimSpace are parameters.
use node_vault.Base.{
  ℕ, ℤ, pos, negsuc, String, Bool, false, not, ◌&&◌, Option, none, some, List, [], ◌∷◌, ◌==◌,
  is_empty, leb, if◌then◌else◌,
}
use node_vault.Status.{Outcome, ok, fail, invalid_argument, ◌>>=◌, ◌>>◌}
use node_vault.Catalog.Json.{has_key}
use node_vault.Catalog.Messages.{
  ToolFunctionSpec, EnvironmentEntry, FunctionPortSpec, ParameterSpec, IntermediateFilePolicy,
  ToolFunctionPresentation, OutputPortPresentation, ToolFunctionValidationPolicy, ExpectedResult,
}
use node_vault.Catalog.SetLike.{Marshal, canonical_tool_function_spec_v1}

-- What the checks use of `strings` and `regexp`: `argument_reference` gives the namespace and the
-- name that argumentReferenceRE finds.
pub record Text : Type 0 where
  pub trim_space : String → String
  pub to_lower : String → String
  pub argument_reference : String → Option (String × String)
  pub argument_reference_like : String → Bool
  pub is_capability : String → Bool
  pub is_base_digest : String → Bool
  pub is_image_digest : String → Bool

abbrev pub Check : Type 0
Check = Outcome (Unit {0})

abbrev pub refuse_when : Bool → Check
refuse_when b = if b then fail invalid_argument else ok tt

abbrev pub is_blank : Text → String → Bool
is_blank t s = is_empty (t.trim_space s)

-- `checkUniquePortNames` and `checkUniqueParameterNames`, on the names.
unfoldable pub check_unique_names : Text → List String → List String → Check
check_unique_names t seen [] = ok tt
check_unique_names t seen (name ∷ names) =
    refuse_when (is_blank t name)
    >> refuse_when (has_key name seen)
    >> check_unique_names t (name ∷ seen) names

abbrev pub port_names : List FunctionPortSpec → List String
port_names [] = []
port_names (p ∷ ps) = p.name ∷ port_names ps

abbrev pub parameter_names : List ParameterSpec → List String
parameter_names [] = []
parameter_names (p ∷ ps) = p.name ∷ parameter_names ps

-- The members 0 to n of an enum.
abbrev pub is_member : ℕ → ℤ → Bool
is_member n (pos m) = leb m n
is_member n (negsuc m) = false

unfoldable pub validate_port_cardinality : List FunctionPortSpec → Check
validate_port_cardinality [] = ok tt
validate_port_cardinality (p ∷ ps) =
    refuse_when (not (is_member 1 p.cardinality)) >> validate_port_cardinality ps

unfoldable pub validate_parameter_types : List ParameterSpec → Check
validate_parameter_types [] = ok tt
validate_parameter_types (p ∷ ps) =
    refuse_when (not (is_member 5 p.type)) >> validate_parameter_types ps

unfoldable pub validate_intermediate_file_policy_kinds : List IntermediateFilePolicy → Check
validate_intermediate_file_policy_kinds [] = ok tt
validate_intermediate_file_policy_kinds (p ∷ ps) =
    refuse_when (not (is_member 5 p.policy)) >> validate_intermediate_file_policy_kinds ps

abbrev pub arguments_of : ToolFunctionSpec → List String
arguments_of spec = elim spec.command [ none ↦ [] | some c ↦ c.arguments ]

-- The loop over the arguments: the names that are consumed.
unfoldable pub consume_arguments :
    Text → List String → List String → List String → Outcome (List String)
consume_arguments t declared consumed [] = ok consumed
consume_arguments t declared consumed (arg ∷ args) = elim (t.argument_reference arg) [
  | none ↦ refuse_when (t.argument_reference_like arg) >> consume_arguments t declared consumed args
  | some reference ↦
      refuse_when (not (reference.0 == "param"))
      >> refuse_when (not (has_key reference.1 declared))
      >> consume_arguments t declared (reference.1 ∷ consumed) args
]

-- The loop over the parameters.
unfoldable pub all_consumed : List String → List String → Check
all_consumed consumed [] = ok tt
all_consumed consumed (name ∷ names) =
    refuse_when (not (has_key name consumed)) >> all_consumed consumed names

unfoldable pub validate_argument_references : Text → ToolFunctionSpec → Check
unfolding consume_arguments all_consumed
validate_argument_references t spec =
    consume_arguments t (parameter_names spec.parameters) [] (arguments_of spec) >>= λ consumed.
    all_consumed consumed (parameter_names spec.parameters)

unfoldable pub validate_tool_function_spec_common : Text → ToolFunctionSpec → Check
unfolding check_unique_names validate_argument_references
validate_tool_function_spec_common t spec =
    validate_port_cardinality spec.inputs
    >> validate_port_cardinality spec.outputs
    >> check_unique_names t [] (port_names spec.inputs)
    >> check_unique_names t [] (port_names spec.outputs)
    >> check_unique_names t [] (parameter_names spec.parameters)
    >> validate_parameter_types spec.parameters
    >> validate_argument_references t spec
    >> validate_intermediate_file_policy_kinds spec.intermediate_file_policies

unfoldable pub none_blank : Text → List String → Check
none_blank t [] = ok tt
none_blank t (s ∷ ss) = refuse_when (is_blank t s) >> none_blank t ss

abbrev pub environment_names : List EnvironmentEntry → List String
environment_names [] = []
environment_names (e ∷ es) = e.name ∷ environment_names es

unfoldable pub companion_files_present : Text → List FunctionPortSpec → Check
companion_files_present t [] = ok tt
companion_files_present t (p ∷ ps) = none_blank t p.companion_files >> companion_files_present t ps

abbrev pub patterns : List IntermediateFilePolicy → List String
patterns [] = []
patterns (p ∷ ps) = p.path_or_pattern ∷ patterns ps

unfoldable pub all_capabilities : Text → List String → Check
all_capabilities t [] = ok tt
all_capabilities t (c ∷ cs) = refuse_when (not (t.is_capability c)) >> all_capabilities t cs

abbrev pub environment_of : ToolFunctionSpec → List EnvironmentEntry
environment_of spec = elim spec.command [ none ↦ [] | some c ↦ c.environment ]

abbrev pub writable_paths_of : ToolFunctionSpec → List String
writable_paths_of spec = elim spec.execution_environment [ none ↦ [] | some e ↦ e.writable_paths ]

abbrev pub required_capabilities_of : ToolFunctionSpec → List String
required_capabilities_of spec = elim spec.execution_environment [
  | none ↦ []
  | some e ↦ e.required_capabilities
]

unfoldable pub validate_set_like_entries : Text → ToolFunctionSpec → Check
unfolding check_unique_names
validate_set_like_entries t spec =
    none_blank t (environment_names (environment_of spec))
    >> companion_files_present t spec.inputs
    >> companion_files_present t spec.outputs
    >> check_unique_names t [] (patterns spec.intermediate_file_policies)
    >> none_blank t (writable_paths_of spec)
    >> all_capabilities t (required_capabilities_of spec)

abbrev pub legacy_order_v0 : String
legacy_order_v0 = "legacy-order-v0"

unfoldable pub validate_tool_function_spec : Marshal → Text → ToolFunctionSpec → String → Check
unfolding validate_tool_function_spec_common validate_set_like_entries
    canonical_tool_function_spec_v1
validate_tool_function_spec marshal t spec version =
    validate_tool_function_spec_common t spec
    >> (if version == legacy_order_v0
        then ok tt
        else (validate_set_like_entries t spec
            >> (canonical_tool_function_spec_v1 marshal spec >>= λ _. ok tt)))

-- The loop over the presentations of output ports.
unfoldable pub check_presented_ports :
    Text → List String → List String → List OutputPortPresentation → Check
check_presented_ports t outputs seen [] = ok tt
check_presented_ports t outputs seen (o ∷ os) =
    refuse_when (is_blank t o.port_name)
    >> refuse_when (not (has_key o.port_name outputs))
    >> refuse_when (has_key o.port_name seen)
    >> check_presented_ports t outputs (o.port_name ∷ seen) os

unfoldable pub validate_tool_function_presentation :
    Text → Option ToolFunctionPresentation → ToolFunctionSpec → Check
unfolding check_presented_ports
validate_tool_function_presentation t none spec = ok tt
validate_tool_function_presentation t (some pres) spec =
    check_presented_ports t (port_names spec.outputs) [] pres.output_port_presentations

unfoldable pub check_expected_ports : List String → List ExpectedResult → Check
check_expected_ports outputs [] = ok tt
check_expected_ports outputs (r ∷ rs) =
    refuse_when (not (is_empty r.output_port_name) && not (has_key r.output_port_name outputs))
    >> check_expected_ports outputs rs

unfoldable pub validate_tool_function_validation_policy :
    Option ToolFunctionValidationPolicy → ToolFunctionSpec → Check
unfolding check_expected_ports
validate_tool_function_validation_policy none spec = ok tt
validate_tool_function_validation_policy (some vp) spec =
    check_expected_ports (port_names spec.outputs) vp.expected_results
