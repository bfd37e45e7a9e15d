-- ===== src/Resolve/RawSpec.antt =====
-- pkg/resolve/rawspec.go: which schema a raw_spec is read under, and the strict parsing of a v1
-- document. The decoding by encoding/json, the trimming, the regular expression of a digest and the
-- lower case of a text are parameters.
use node_vault.Base.{String, Bool, not, ◌||◌, Option, none, some, ◌==◌, is_empty, ℤ, if◌then◌else◌}
use node_vault.Resolve.{schema_build_v1, schema_legacy_v0, is_sha256_digest}
use node_vault.Resolve.KindNumber.{json_number_equals_two}

-- `RawSpecV1`, whose kind is the one integer that is accepted.
pub record RawSpecV1 : Type 0 where
  pub schema_version : String
  pub base_image_digest : String
  pub script : String

-- `rawSpecV1Wire`, the kind as the text it is written in.
pub record RawSpecV1Wire : Type 0 where
  pub schema_version : String
  pub kind : String
  pub base_image_digest : String
  pub script : String

-- `decode` reads one document whose fields are all known, with nothing after it; `carries` says
-- whether the first value is an object with a field of a name.
pub record Texts : Type 0 where
  pub decode : String → Option RawSpecV1Wire
  pub carries : String → String → Bool
  pub trim_space : String → String
  pub to_lower : String → String
  pub sha256_digest_re : String → Bool
  pub atoi : String → Option ℤ

-- `IsV1RawSpec`
abbrev pub is_v1_raw_spec : Texts → String → Bool
is_v1_raw_spec t raw_spec = t.carries "schema_version" (t.trim_space raw_spec)

-- `DetectSchema`
abbrev pub detect_schema : Texts → String → String
detect_schema t raw_spec = if is_v1_raw_spec t raw_spec then schema_build_v1 else schema_legacy_v0

abbrev pub check_wire : Texts → RawSpecV1Wire → Option RawSpecV1
unfolding json_number_equals_two
check_wire t w =
    if not (w.schema_version == schema_build_v1)
    then none
    else if not (json_number_equals_two t.atoi (t.trim_space w.kind))
    then none
    else if not (w.base_image_digest == t.trim_space w.base_image_digest)
        || not (is_sha256_digest t.sha256_digest_re t.trim_space w.base_image_digest)
    then none
    else if is_empty (t.trim_space w.script)
    then none
    else some (record {
      schema_version = w.schema_version;
      base_image_digest = t.to_lower w.base_image_digest;
      script = w.script;
    })

abbrev pub checked : Texts → Option RawSpecV1Wire → Option RawSpecV1
unfolding check_wire
checked t none = none
checked t (some w) = check_wire t w

-- `ParseRawSpecV1`, `none` for each of its errors.
unfoldable pub parse_raw_spec_v1 : Texts → String → Option RawSpecV1
unfolding checked
parse_raw_spec_v1 t raw_spec = checked t (t.decode raw_spec)
