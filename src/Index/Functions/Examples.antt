-- ===== src/Index/Functions/Examples.antt =====
-- The theorems on the registration of ToolFunctions, at concrete operations.
use node_vault.Base.{◌≡◌, refl, String, true, none, some, find_first}
use node_vault.Index.Schema.{
  IndexFile, RegisteredToolFunction, ToolFunctionOperation, ArtifactKind, LifecyclePhase,
  IntegrityHealth, empty_index,
}
use node_vault.Index.Errors.{ok, request_conflict}
use node_vault.Index.Functions.{
  EnvelopeOf, refuses, plan_register, plan_content, completed, receipt, with_function, with_receipt,
  with_revision, find_tool_function, find_tool_function_request, resolve_tool_function_request,
  check_tool_function_envelope, check_envelopes, check_record_envelope, provable_origin,
}
use node_vault.Index.Functions.Idempotence.{plan_register-keeps, plan_register-again}
use node_vault.Index.Functions.Register.{
  register_tool_function_atomic, repair, decide_and_write, carry_out, settle_persist,
}
use node_vault.Index.Functions.Register.Durable.{Acknowledged, register_tool_function_atomic-ok}
use node_vault.Index.Disk.{
  lock_writer, check_generation, load, load_content, persist_locked, moved, file_moved,
}
use node_vault.Index.Save.{
  begin_write, ensure_writer, read_fence, unsupported, claim_epoch, write_fence, set_epoch,
  next_fence,
}
use node_vault.Index.Samples.{toy, calm, fresh}

-- Every basis has the same envelope.
abbrev one_envelope : EnvelopeOf
one_envelope s = ok (record { validation_policy = some "{}"; environment_hints = none })

abbrev operation : String → ToolFunctionOperation
operation id = record {
  request_id = id;
  canonicalization_version = "w2-set-v1";
  request_fingerprint = "fp";
  request_basis_json = "{}";
}

abbrev function : String → RegisteredToolFunction
function cas = record {
  cas_hash = cas;
  tool_function_digest = "digest-1";
  function_image_digest = "sha256:1";
  base_tool_spec_digest = "spec-1";
  artifact_kind = ArtifactKind.tool_function;
  presentation_revision_id = "";
  request_id = "";
  canonicalization_version = "";
  lifecycle_phase = LifecyclePhase.unset;
  integrity_health = IntegrityHealth.unset;
  registered_at = 0;
  lifecycle_updated_at = 0;
}

-- The index after one registration, and after two.
abbrev one : IndexFile
unfolding completed with_function
one =
    with_function 7 (operation "op-1") (completed 7 (operation "op-1") (function "fn-1")) none
      empty_index

abbrev two : IndexFile
unfolding completed with_function one
two = with_function 8 (operation "op-2") (completed 8 (operation "op-2") (function "fn-2")) none one

plan_register-again_example :
    plan_register one_envelope 9 (operation "op-1") (function "fn-2") none one
    ≡ refuses request_conflict
unfolding plan_register plan_content find_tool_function find_tool_function_request
    resolve_tool_function_request check_tool_function_envelope check_envelopes find_first one
plan_register-again_example =
    plan_register-again one_envelope 7 (operation "op-1") (function "fn-1") none empty_index 9
      (operation "op-1") (function "fn-2") none refl refl refl refl

plan_register-keeps_example :
    (find_tool_function "fn-1" two ≡ ok (completed 7 (operation "op-1") (function "fn-1")))
    × (find_tool_function_request "op-1" two
        ≡ some (receipt 7 (operation "op-1") (completed 7 (operation "op-1") (function "fn-1"))))
    × (find_tool_function "fn-2" two ≡ ok (completed 8 (operation "op-2") (function "fn-2")))
unfolding plan_register plan_content find_tool_function find_tool_function_request with_function
    with_receipt with_revision resolve_tool_function_request check_tool_function_envelope
    check_envelopes check_record_envelope provable_origin completed find_first one two
plan_register-keeps_example =
    plan_register-keeps one_envelope 8 (operation "op-2") (function "fn-2") none one "fn-1" "op-1"
      (completed 7 (operation "op-1") (function "fn-1"))
      (receipt 7 (operation "op-1") (completed 7 (operation "op-1") (function "fn-1"))) refl refl
      refl

register_tool_function_atomic-ok_example :
    Acknowledged toy
      (completed 7 (operation "op-1") (function "fn-1"))
      true
      (register_tool_function_atomic one_envelope toy calm
        (operation "op-1")
        (function "fn-1")
        none
        fresh).1
unfolding register_tool_function_atomic repair decide_and_write carry_out settle_persist lock_writer
    begin_write ensure_writer read_fence unsupported claim_epoch write_fence set_epoch next_fence
    check_generation load load_content persist_locked moved file_moved plan_register plan_content
    find_tool_function find_tool_function_request resolve_tool_function_request
    check_tool_function_envelope check_envelopes find_first
register_tool_function_atomic-ok_example =
    register_tool_function_atomic-ok one_envelope toy calm (operation "op-1") (function "fn-1") none
      fresh (completed 7 (operation "op-1") (function "fn-1")) true refl
