-- ===== src/Catalog/Derive.antt =====
-- pkg/catalog/toolfunction.go: the identities, the presentation revision and the request basis of one
-- registration. encoding/json and crypto/sha256 are parameters.
use node_vault.Base.{String, Bool, true, false, Option, none, some, [], ◌∷◌, ◌==◌, if◌then◌else◌}
use node_vault.Status.{Outcome, ok, fail, internal, ◌>>=◌}
use node_vault.Index.Schema.{ToolFunctionOperation, ToolFunctionPresentationRevision}
use node_vault.Catalog.Json.{Fields, text, empty_map, as_json, put, put_msg}
use node_vault.Catalog.Messages.{
  ToolFunctionSpec, ToolFunctionPresentation, RegisterToolFunctionRequest,
}
use node_vault.Catalog.Canonical.{
  is_present, canonical_tool_function_spec, canonical_presentation, canonical_validation_policy,
  canonical_environment_hints,
}
use node_vault.Catalog.SetLike.{Marshal, canonical_tool_function_spec_v1}
use node_vault.Catalog.Validate.{legacy_order_v0}

-- `json.Marshal`, and the hexadecimal SHA256 of a text.
pub record Encoding : Type 0 where
  pub marshal : Marshal
  pub sha256_hex : String → String

-- `json.Marshal`, whose failure is answered.
abbrev pub encoded : Encoding → Fields → Outcome String
encoded g m = elim (g.marshal (as_json m)) [ none ↦ fail internal | some s ↦ ok s ]

-- `canonicalSHA256`
unfoldable pub canonical_sha256 : Encoding → Fields → Outcome String
canonical_sha256 g m = encoded g m >>= λ s. ok (g.sha256_hex s)

-- `canonicalToolFunctionSpecFor`
unfoldable pub canonical_tool_function_spec_for :
    Encoding → String → ToolFunctionSpec → Outcome Fields
unfolding canonical_tool_function_spec canonical_tool_function_spec_v1
canonical_tool_function_spec_for g version spec =
    if version == legacy_order_v0
    then ok (canonical_tool_function_spec spec)
    else canonical_tool_function_spec_v1 g.marshal spec

abbrev pub digest_preimage : String → Fields → Fields
digest_preimage base spec =
    put "spec" (as_json spec) (put "base_tool_spec_digest" (text base) empty_map)

abbrev pub cas_preimage : String → String → Fields
cas_preimage digest image =
    put "function_image_digest" (text image) (put "tool_function_digest" (text digest) empty_map)

unfoldable pub compute_tool_function_cas_hash : Encoding → String → String → Outcome String
unfolding canonical_sha256
compute_tool_function_cas_hash g digest image = canonical_sha256 g (cas_preimage digest image)

-- `len(m) == 0`
abbrev pub is_empty_map : Fields → Bool
is_empty_map m = elim m.keys [ [] ↦ true | k ∷ ks ↦ false ]

abbrev pub revision_of : String → String → String → ToolFunctionPresentationRevision
revision_of cas json id = record {
  revision_id = id;
  cas_hash = cas;
  presentation_json = json;
  created_at = 0;
}

unfoldable pub build_presentation_revision :
    Encoding
    → Option ToolFunctionPresentation
    → String
    → Outcome (String × Option ToolFunctionPresentationRevision)
unfolding canonical_presentation
build_presentation_revision g pres cas =
    let canon = canonical_presentation pres in
    if is_empty_map canon
    then ok ("", none)
    else (encoded g canon >>= λ json.
        ok (g.sha256_hex json, some (revision_of cas json (g.sha256_hex json))))

-- `toolFunctionDerivation`
pub record ToolFunctionDerivation : Type 0 where
  pub tool_function_digest : String
  pub cas_hash : String
  pub presentation_rev_id : String
  pub presentation_rev : Option ToolFunctionPresentationRevision
  pub op : ToolFunctionOperation

abbrev pub put_presentation : Option ToolFunctionPresentation → Fields → Fields
unfolding canonical_presentation
put_presentation pres m =
    let canon = canonical_presentation pres in
    if is_empty_map canon then m else put "presentation" (as_json canon) m

-- The request basis, given the canonical declaration.
unfoldable pub request_basis :
    String → String → String → RegisterToolFunctionRequest → Fields → Fields
unfolding canonical_presentation canonical_validation_policy canonical_environment_hints
request_basis version base image req canon =
    put_msg "environment_hints" (is_present req.environment_hints)
      (canonical_environment_hints req.environment_hints)
      (put_msg "validation_policy" (is_present req.validation_policy)
        (canonical_validation_policy req.validation_policy)
        (put_presentation req.presentation (
          put "spec" (as_json canon) (
            put "image_digest" (text image) (
              put "base_tool_spec_digest" (text base)
                (put "canonicalization_version" (text version) empty_map))))))

abbrev pub operation : Encoding → String → String → String → ToolFunctionOperation
operation g id version basis = record {
  request_id = id;
  canonicalization_version = version;
  request_fingerprint = g.sha256_hex basis;
  request_basis_json = basis;
}

-- What follows the canonical declaration.
unfoldable pub derive_from :
    Encoding
    → String
    → String
    → String
    → RegisterToolFunctionRequest
    → Fields
    → Outcome ToolFunctionDerivation
unfolding canonical_sha256 compute_tool_function_cas_hash build_presentation_revision request_basis
derive_from g version base image req canon =
    canonical_sha256 g (digest_preimage base canon) >>= λ digest.
    compute_tool_function_cas_hash g digest image >>= λ cas.
    build_presentation_revision g req.presentation cas >>= λ rev.
    encoded g (request_basis version base image req canon) >>= λ basis. ok (record {
      tool_function_digest = digest;
      cas_hash = cas;
      presentation_rev_id = rev.0;
      presentation_rev = rev.1;
      op = operation g req.request_id version basis;
    })

-- `deriveToolFunction`, on the declaration of the request, which is there.
unfoldable pub derive_tool_function :
    Encoding
    → String
    → String
    → String
    → RegisterToolFunctionRequest
    → ToolFunctionSpec
    → Outcome ToolFunctionDerivation
unfolding canonical_tool_function_spec_for derive_from
derive_tool_function g version base image req spec =
    canonical_tool_function_spec_for g version spec >>= derive_from g version base image req
