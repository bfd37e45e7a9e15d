-- ===== src/Catalog/Examples.antt =====
-- Concrete declarations and requests at which the theorems on RegisterToolFunction apply.
use mathlib.Core.List.{Permᴰ}
use node_vault.Base.{
  ◌≡◌, refl, pos, String, true, false, none, some, List, [], ◌∷◌, ◌==◌, if◌then◌else◌,
}
use node_vault.Status.{ok, answer}
use node_vault.Catalog.Json.{text, number, flag, array, object, absent}
use node_vault.Catalog.Messages.{
  ToolFunctionSpec, CommandContract, ParameterSpec, RegisterToolFunctionRequest,
}
use node_vault.Catalog.SetLike.{
  Marshal, Keyed, bytes_ltb, sort_canonical_set, encode_all, place, sort_keyed, no_duplicate,
  values,
}
use node_vault.Catalog.SortedSet.{IsEncoded, IsAscending, sort_canonical_set-ok}
use node_vault.Catalog.Reordered.{Reordered}
use node_vault.Catalog.Derive.{Encoding, derive_tool_function}
use node_vault.Catalog.Validate.{Text, validate_argument_references}
use node_vault.Catalog.Arguments.{is_accepted, refers, validate_argument_references_lem}
use node_vault.Catalog.Identity.{derive_tool_function-Reordered}

-- An encoding that shows the name of an object.
abbrev toy_json : Marshal
toy_json (text s) = some s
toy_json (object keys at) = elim (at "name") [ text s ↦ some s | _ ↦ some "{}" ]
toy_json (array xs) = some "[]"
toy_json (number n) = some "0"
toy_json (flag b) = some "true"
toy_json absent = none

abbrev pub toy_encoding : Encoding
toy_encoding = record { marshal = toy_json; sha256_hex = λ s. s }

abbrev parameter : String → ParameterSpec
parameter name = record {
  name = name;
  type = pos 1;
  default_value = "";
  allowed_range = "";
  required = true;
  cli_argument_mapping = "";
  mutually_exclusive_group = "";
}

abbrev command : CommandContract
command = record {
  executable = "/bin/align";
  arguments = "{param.depth}" ∷ ("{param.width}" ∷ []);
  working_directory = "";
  environment = [];
  success_exit_codes = [];
  timeout_policy = none;
}

abbrev spec_of : List ParameterSpec → ToolFunctionSpec
spec_of ps = record {
  command = some command;
  inputs = [];
  outputs = [];
  parameters = ps;
  intermediate_file_policies = [];
  execution_environment = none;
}

abbrev spec : ToolFunctionSpec
spec = spec_of (parameter "width" ∷ (parameter "depth" ∷ []))

abbrev swapped_spec : ToolFunctionSpec
swapped_spec = spec_of (parameter "depth" ∷ (parameter "width" ∷ []))

abbrev pub request : RegisterToolFunctionRequest
request = record {
  request_id = "op-1";
  canonicalization_version = "w2-set-v1";
  base_tool_spec_digest = "base";
  image_digest = "image";
  spec = some spec;
  presentation = none;
  validation_policy = none;
  environment_hints = none;
}

-- References to the two parameters.
abbrev pub toy_text : Text
toy_text = record {
  trim_space = λ s. s;
  to_lower = λ s. s;
  argument_reference = λ s.
      if s == "{param.depth}"
      then some ("param", "depth")
      else if s == "{param.width}"
      then some ("param", "width")
      else none;
  argument_reference_like = λ s. false;
  is_capability = λ s. true;
  is_base_digest = λ s. true;
  is_image_digest = λ s. true;
}

derive_tool_function-Reordered_example :
    answer (derive_tool_function toy_encoding "w2-set-v1" "base" "image" request spec)
    ≡ answer (derive_tool_function toy_encoding "w2-set-v1" "base" "image" request swapped_spec)
derive_tool_function-Reordered_example =
    derive_tool_function-Reordered toy_encoding "w2-set-v1" "base" "image" request spec swapped_spec
      refl
      (Reordered.parameters spec (parameter "depth" ∷ (parameter "width" ∷ []))
        (Permᴰ.swap refl refl))

validate_argument_references_example : validate_argument_references toy_text spec ≡ ok tt
unfolding is_accepted refers
validate_argument_references_example = validate_argument_references_lem toy_text spec

sort_canonical_set-ok_example :
    (es : List Keyed) × (values es ≡ (text "a" ∷ (text "b" ∷ [])))
    × IsEncoded toy_json es
    × IsAscending es
    × Permᴰ (text "b" ∷ (text "a" ∷ [])) (text "a" ∷ (text "b" ∷ []))
unfolding sort_canonical_set encode_all sort_keyed place no_duplicate bytes_ltb
sort_canonical_set-ok_example =
    sort_canonical_set-ok toy_json (text "b" ∷ (text "a" ∷ [])) (text "a" ∷ (text "b" ∷ [])) refl
