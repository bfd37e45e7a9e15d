-- ===== src/Catalog/Calls.antt =====
-- A registration that succeeds, on a new store whose index holds the base tool spec.
use node_vault.Base.{◌≡◌, refl, Bool, false, none, [], ◌∷◌, find_first}
use node_vault.Status.{ok}
use node_vault.Resolve.{effective_provenance, schema_build_v1, derivation_v1}
use node_vault.Index.Schema.{ResolvedToolSpec, RegisteredToolFunction, empty_index}
use node_vault.Index.Errors as Errors
use node_vault.Index.Builds.{get_resolved_tool_spec_by_digest}
use node_vault.Index.Disk.{
  World, lock_writer, check_generation, load, load_content, persist_locked, moved, file_moved,
}
use node_vault.Index.Save.{
  begin_write, ensure_writer, read_fence, unsupported, claim_epoch, write_fence, set_epoch,
  next_fence,
}
use node_vault.Index.Functions.{
  EnvelopeOf, plan_register, plan_content, completed, find_tool_function,
  find_tool_function_request, resolve_tool_function_request, check_tool_function_envelope,
  check_envelopes, get_tool_function_request_record, with_function, with_receipt, with_revision,
}
use node_vault.Index.Functions.Register.{
  register_tool_function_atomic, repair, decide_and_write, carry_out, settle_persist,
}
use node_vault.Index.Functions.Register.Durable.{Acknowledged}
use node_vault.Index.Samples.{toy, calm, fresh}
use node_vault.Catalog.Json.{to_items, of_items}
use node_vault.Catalog.Canonical.{
  canonical_tool_function_spec, canonical_command, canonical_parameter, canonical_presentation,
  canonical_validation_policy, canonical_environment_hints,
}
use node_vault.Catalog.SetLike.{
  bytes_ltb, sort_canonical_set, encode_all, place, sort_keyed, no_duplicate, change_key,
  change_all, v1_changes, sort_canonical_set_in, sort_command, sort_exec_env,
  canonical_tool_function_spec_v1,
}
use node_vault.Catalog.Validate.{
  check_unique_names, validate_port_cardinality, validate_parameter_types,
  validate_intermediate_file_policy_kinds, consume_arguments, all_consumed,
  validate_argument_references, validate_tool_function_spec_common, none_blank,
  companion_files_present, all_capabilities, validate_set_like_entries, validate_tool_function_spec,
  validate_tool_function_presentation, validate_tool_function_validation_policy,
}
use node_vault.Catalog.Derive.{
  canonical_sha256, canonical_tool_function_spec_for, compute_tool_function_cas_hash,
  build_presentation_revision, request_basis, derive_from, derive_tool_function,
}
use node_vault.Catalog.Register.{
  Unknown, RegisterToolFunctionResponse, register_tool_function, prepare, derive_checked,
  reject_unknown_request_fields, check_canonicalization_selection, check_base, response,
}
use node_vault.Catalog.Gates.{
  Selected, Based, register_tool_function-gated, register_tool_function-Acknowledged,
}
use node_vault.Catalog.Examples.{toy_encoding, toy_text, request}

abbrev base : ResolvedToolSpec
base = record {
  tool_spec_digest = "base";
  tool_name = "align";
  version = "1";
  raw_spec = "{}";
  recipe_inputs_digest = "";
  build_plan_digest = "";
  builder_identity = "";
  base_image_ref = "";
  base_image_digest = "";
  raw_spec_schema_version = schema_build_v1;
  derivation_version = derivation_v1;
  resolved_at = 1;
}

abbrev ready : World
ready = record fresh {
  store = record fresh.store { idx = record empty_index { resolved_tool_specs = base ∷ [] } };
}

abbrev no_envelope : EnvelopeOf
no_envelope s = Errors.ok (record { validation_policy = none; environment_hints = none })

abbrev known : Unknown
known = record {
  top_level = false;
  spec = false;
  presentation = false;
  validation_policy = false;
  environment_hints = false;
}

abbrev answer_of_request : RegisterToolFunctionResponse
answer_of_request = record {
  tool_function_digest = "{}";
  presentation_revision_id = "";
  cas_hash = "{}";
  canonicalization_version = "w2-set-v1";
}

accepted :
    (register_tool_function toy_encoding toy_text no_envelope toy calm known request ready).0
    ≡ ok answer_of_request
unfolding register_tool_function prepare derive_checked reject_unknown_request_fields
    check_canonicalization_selection get_tool_function_request_record check_base
    get_resolved_tool_spec_by_digest effective_provenance find_first validate_tool_function_spec
    validate_tool_function_spec_common validate_port_cardinality check_unique_names
    validate_parameter_types validate_argument_references consume_arguments all_consumed
    validate_intermediate_file_policy_kinds validate_set_like_entries none_blank
    companion_files_present all_capabilities validate_tool_function_presentation
    validate_tool_function_validation_policy canonical_tool_function_spec_v1
    canonical_tool_function_spec canonical_command canonical_parameter v1_changes change_all
    change_key sort_command sort_exec_env sort_canonical_set_in sort_canonical_set encode_all
    sort_keyed place bytes_ltb no_duplicate to_items of_items derive_tool_function
    canonical_tool_function_spec_for derive_from canonical_sha256 compute_tool_function_cas_hash
    build_presentation_revision canonical_presentation request_basis canonical_validation_policy
    canonical_environment_hints register_tool_function_atomic repair decide_and_write carry_out
    settle_persist lock_writer begin_write ensure_writer read_fence unsupported claim_epoch
    write_fence set_epoch next_fence check_generation load load_content persist_locked moved
    file_moved plan_register plan_content find_tool_function find_tool_function_request
    resolve_tool_function_request check_tool_function_envelope check_envelopes completed
    with_function with_receipt with_revision
accepted = refl

register_tool_function-gated_example :
    Selected ready.store.idx "op-1" "w2-set-v1" × Based ready.store.idx "base"
register_tool_function-gated_example =
    register_tool_function-gated toy_encoding toy_text no_envelope toy calm known request ready
      answer_of_request accepted

register_tool_function-Acknowledged_example :
    (stored : RegisteredToolFunction) × (new : Bool) × (answer_of_request
      ≡ response "w2-set-v1" stored)
    × Acknowledged toy stored new
        (register_tool_function toy_encoding toy_text no_envelope toy calm known request ready).1
register_tool_function-Acknowledged_example =
    register_tool_function-Acknowledged toy_encoding toy_text no_envelope toy calm known request
      ready answer_of_request accepted
