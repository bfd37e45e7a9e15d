-- ===== src/Catalog/Reordered.antt =====
-- pkg/catalog/toolfunction.go, canonicalToolFunctionSpecV1: declarations that differ in the order of
-- their set-like fields, and their canonical form.
use mathlib.Core.List.{Permᴰ}
use node_vault.Base.{◌≡◌, refl, ◌∙◌, String, some, List, ◌∷◌, ◌++◌, ℤ}
use node_vault.Status.{answer}
use node_vault.Catalog.Json.{Json, number, empty_map}
use node_vault.Catalog.Messages.{
  ToolFunctionSpec, CommandContract, EnvironmentEntry, FunctionPortSpec, ParameterSpec,
  IntermediateFilePolicy, ExecutionEnvironmentSpec,
}
use node_vault.Catalog.Canonical.{
  canonical_tool_function_spec, canonical_command, canonical_port, canonical_exec_env,
  canonical_env_entry, command_head, canonical_parameter, canonical_intermediate_policy,
}
use node_vault.Catalog.SetLike.{Marshal, canonical_tool_function_spec_v1, v1_changes}
use node_vault.Catalog.Agreement.{SameSet, Apart, Settles, Both-answer}
use node_vault.Catalog.Shuffled.{Nested}
use node_vault.Catalog.Builders.{
  Apart-put_str, Apart-put_bool, Apart-put_list, Apart-start, Apart-put_same, map-Perm, texts-Perm,
}
use node_vault.Catalog.Settle.{
  Inside, environment-Settles, success_exit_codes-Settles, inputs-Settles, outputs-Settles,
  input_companion_files-Settles, output_companion_files-Settles, parameters-Settles,
  intermediate_file_policies-Settles, writable_paths-Settles, required_capabilities-Settles,
}
use node_vault.Catalog.Differences.{
  Apart-put_exec_env, Apart-put_timeout, before_exec_env, Apart-after_parameters,
  Apart-after_outputs, Apart-after_inputs, Apart-after_command, one_port,
}

-- Declarations that differ in the order of set-like fields, one of them at a time.
pub data Reordered : ToolFunctionSpec → ToolFunctionSpec → Type 0 where
  unchanged : {s : ToolFunctionSpec} → Reordered s s
  and_also : {s t u : ToolFunctionSpec} → Reordered s t → Reordered t u → Reordered s u
  environment :
      (s : ToolFunctionSpec) (c : CommandContract) (es : List EnvironmentEntry)
      → Permᴰ c.environment es
      → Reordered
          (record s { command = some c })
          (record s { command = some (record c { environment = es }) })
  success_exit_codes :
      (s : ToolFunctionSpec) (c : CommandContract) (ns : List ℤ)
      → Permᴰ c.success_exit_codes ns
      → Reordered
          (record s { command = some c })
          (record s { command = some (record c { success_exit_codes = ns }) })
  inputs :
      (s : ToolFunctionSpec) (ps : List FunctionPortSpec)
      → Permᴰ s.inputs ps
      → Reordered s (record s { inputs = ps })
  outputs :
      (s : ToolFunctionSpec) (ps : List FunctionPortSpec)
      → Permᴰ s.outputs ps
      → Reordered s (record s { outputs = ps })
  input_companion_files :
      (s : ToolFunctionSpec) (before after : List FunctionPortSpec) (p : FunctionPortSpec)
      (fs : List String)
      → Permᴰ p.companion_files fs
      → Reordered
          (record s { inputs = before ++ p ∷ after })
          (record s { inputs = before ++ record p { companion_files = fs } ∷ after })
  output_companion_files :
      (s : ToolFunctionSpec) (before after : List FunctionPortSpec) (p : FunctionPortSpec)
      (fs : List String)
      → Permᴰ p.companion_files fs
      → Reordered
          (record s { outputs = before ++ p ∷ after })
          (record s { outputs = before ++ record p { companion_files = fs } ∷ after })
  parameters :
      (s : ToolFunctionSpec) (ps : List ParameterSpec)
      → Permᴰ s.parameters ps
      → Reordered s (record s { parameters = ps })
  intermediate_file_policies :
      (s : ToolFunctionSpec) (ps : List IntermediateFilePolicy)
      → Permᴰ s.intermediate_file_policies ps
      → Reordered s (record s { intermediate_file_policies = ps })
  writable_paths :
      (s : ToolFunctionSpec) (e : ExecutionEnvironmentSpec) (ws : List String)
      → Permᴰ e.writable_paths ws
      → Reordered
          (record s { execution_environment = some e })
          (record s { execution_environment = some (record e { writable_paths = ws }) })
  required_capabilities :
      (s : ToolFunctionSpec) (e : ExecutionEnvironmentSpec) (cs : List String)
      → Permᴰ e.required_capabilities cs
      → Reordered
          (record s { execution_environment = some e })
          (record s { execution_environment = some (record e { required_capabilities = cs }) })

settled :
    {k : String} {P : Json → Json → Type 0} (marshal : Marshal) (s t : ToolFunctionSpec)
    → Settles k P (v1_changes marshal)
    → Apart k P (canonical_tool_function_spec s) (canonical_tool_function_spec t)
    → answer (canonical_tool_function_spec_v1 marshal s)
      ≡ answer (canonical_tool_function_spec_v1 marshal t)
unfolding canonical_tool_function_spec_v1
settled marshal s t h a = Both-answer (h _ _ a)

-- Two declarations that differ only in the order of their set-like fields have one w2-set-v1
-- canonical form, or both have none.
pub canonical_tool_function_spec_v1-Reordered :
    (marshal : Marshal) {s t : ToolFunctionSpec}
    → Reordered s t
    → answer (canonical_tool_function_spec_v1 marshal s)
      ≡ answer (canonical_tool_function_spec_v1 marshal t)
unfolding canonical_tool_function_spec canonical_command canonical_exec_env
canonical_tool_function_spec_v1-Reordered marshal Reordered.unchanged = refl
canonical_tool_function_spec_v1-Reordered marshal (Reordered.and_also r q) =
    canonical_tool_function_spec_v1-Reordered marshal r
    ∙ canonical_tool_function_spec_v1-Reordered marshal q
canonical_tool_function_spec_v1-Reordered marshal (Reordered.environment s c es d) =
    settled marshal _ _ (environment-Settles marshal) (
      Apart-after_command (Inside "environment") s _ _ (
        Nested.nested _ _ (
          Apart-put_timeout "environment" c.timeout_policy _ _ refl (
            Apart-put_list SameSet "environment" "success_exit_codes" refl _ _ _
              (Apart-start "environment" (command_head c) _ _ (map-Perm canonical_env_entry d))))))
canonical_tool_function_spec_v1-Reordered marshal (Reordered.success_exit_codes s c ns d) =
    settled marshal _ _ (success_exit_codes-Settles marshal) (
      Apart-after_command (Inside "success_exit_codes") s _ _ (
        Nested.nested _ _ (
          Apart-put_timeout "success_exit_codes" c.timeout_policy _ _ refl
            (Apart-start "success_exit_codes" _ _ _ (map-Perm number d)))))
canonical_tool_function_spec_v1-Reordered marshal (Reordered.inputs s ps d) =
    settled marshal _ _ (inputs-Settles marshal) (
      Apart-after_inputs SameSet "inputs" s _ _ refl refl refl refl
        (Apart-start "inputs" _ _ _ (map-Perm canonical_port d)))
canonical_tool_function_spec_v1-Reordered marshal (Reordered.outputs s ps d) =
    settled marshal _ _ (outputs-Settles marshal) (
      Apart-after_outputs SameSet "outputs" s _ _ refl refl refl
        (Apart-start "outputs" _ _ _ (map-Perm canonical_port d)))
canonical_tool_function_spec_v1-Reordered marshal (Reordered.input_companion_files s b a p fs d) =
    settled marshal _ _ (input_companion_files-Settles marshal)
      (Apart-after_inputs _ "inputs" s _ _ refl refl refl refl (one_port "inputs" _ b a p fs d))
canonical_tool_function_spec_v1-Reordered marshal (Reordered.output_companion_files s b a p fs d) =
    settled marshal _ _ (output_companion_files-Settles marshal)
      (Apart-after_outputs _ "outputs" s _ _ refl refl refl (one_port "outputs" _ b a p fs d))
canonical_tool_function_spec_v1-Reordered marshal (Reordered.parameters s ps d) =
    settled marshal _ _ (parameters-Settles marshal) (
      Apart-after_parameters SameSet "parameters" s _ _ refl refl
        (Apart-start "parameters" _ _ _ (map-Perm canonical_parameter d)))
canonical_tool_function_spec_v1-Reordered marshal (Reordered.intermediate_file_policies s ps d) =
    settled marshal _ _ (intermediate_file_policies-Settles marshal) (
      Apart-put_exec_env SameSet "intermediate_file_policies" s.execution_environment _ _ refl
        (Apart-start "intermediate_file_policies" _ _ _ (map-Perm canonical_intermediate_policy d)))
canonical_tool_function_spec_v1-Reordered marshal (Reordered.writable_paths s e ws d) =
    settled marshal _ _ (writable_paths-Settles marshal) (
      Apart-put_same (Inside "writable_paths") "execution_environment" _ _ (before_exec_env s) (
        Nested.nested _ _ (
          Apart-put_list SameSet "writable_paths" "required_capabilities" refl _ _ _ (
            Apart-put_bool SameSet "writable_paths" "requires_root" refl _ _ e.requires_root (
              Apart-put_str SameSet "writable_paths" "network_policy" refl _ _ e.network_policy
                (Apart-start "writable_paths" empty_map _ _ (texts-Perm d)))))))
canonical_tool_function_spec_v1-Reordered marshal (Reordered.required_capabilities s e cs d) =
    settled marshal _ _ (required_capabilities-Settles marshal) (
      Apart-put_same (Inside "required_capabilities") "execution_environment" _ _
        (before_exec_env s)
        (Nested.nested _ _ (Apart-start "required_capabilities" _ _ _ (texts-Perm d))))
