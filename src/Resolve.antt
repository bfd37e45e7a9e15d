-- ===== src/Resolve.antt =====
-- pkg/resolve/rawspec.go and digest.go: what a stored provenance pair means, and the test of an image
-- digest.
pub mod KindNumber
pub mod IntegerTwo
pub mod RawSpec
mod Examples
use mathlib.Core.Path.{subst}
use node_vault.Base.{
  ◌≡◌, refl, sym, String, Bool, true, false, not, ◌&&◌, ◌||◌, Option, none, some, ◌==◌, is_empty,
  eq_iff, if◌then◌else◌, arith, ◌⊎◌, inl, inr, Bool-cases, ◌↔◌,
}

abbrev pub schema_legacy_v0 : String
schema_legacy_v0 = "nodevault.toolspec.raw_spec.v0"

abbrev pub schema_build_v1 : String
schema_build_v1 = "nodevault.build.raw_spec.v1"

abbrev pub derivation_v1 : String
derivation_v1 = "nodevault.resolve.v1"

pub record Provenance : Type 0 where
  pub schema_version : String
  pub derivation_version : String

-- `EffectiveProvenance`, `none` where it refuses to interpret the pair.
unfoldable pub effective_provenance : String → String → Option Provenance
effective_provenance schema derivation =
    if is_empty schema && is_empty derivation
    then some (record { schema_version = schema_legacy_v0; derivation_version = derivation_v1 })
    else if is_empty schema || is_empty derivation
    then none
    else if not (schema == schema_legacy_v0) && not (schema == schema_build_v1)
    then none
    else if not (derivation == derivation_v1)
    then none
    else some (record { schema_version = schema; derivation_version = derivation })

-- `IsSHA256Digest`, over the regular expression and `strings.TrimSpace`.
abbrev pub is_sha256_digest : (String → Bool) → (String → String) → String → Bool
is_sha256_digest sha256_digest_re trim_space digest = sha256_digest_re (trim_space digest)
