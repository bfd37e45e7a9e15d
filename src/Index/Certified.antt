-- ===== src/Index/Certified.antt =====
-- pkg/index/store.go, the certification records and the catalog entries: their upserts, and the
-- catalog reads that the lifecycle phase of the artifact gates.
pub mod Keyed
pub mod Exposure
mod Examples
use node_vault.Base.{
  Time, String, Bool, true, false, not, ◌&&◌, Option, none, some, List, [], ◌∷◌, ◌==◌, is_empty,
  or_now, find_first, keep, map, if◌then◌else◌,
}
use node_vault.Index.Schema.{
  IndexFile, Entry, CertifiedToolImageRecord, ToolFunctionCatalogEntry, PromotionStatus,
  promotion_filter,
}
use node_vault.Index.Errors.{Result, ok, err, empty_key, not_found}
use node_vault.Index.Sections.{found, or_not_found}
use node_vault.Index.Entries.{has_cas, is_active}

-- Writes over the first element that passes the test, or appends.
unfoldable pub upsert_first {ℓ} : {A : Type ℓ} → (A → Bool) → A → List A → List A
upsert_first p y [] = y ∷ []
upsert_first p y (x ∷ xs) = if p x then y ∷ xs else x ∷ upsert_first p y xs

abbrev pub is_keyed : CertifiedToolImageRecord → Bool
is_keyed r = not (is_empty r.tool_spec_digest) && not (is_empty r.platform)

unfoldable pub same_certified_tool_key : CertifiedToolImageRecord → CertifiedToolImageRecord → Bool
same_certified_tool_key a b =
    if is_keyed a && is_keyed b
    then a.tool_spec_digest == b.tool_spec_digest && a.platform == b.platform
    else a.image_digest == b.image_digest

abbrev pub certified : Time → CertifiedToolImageRecord → CertifiedToolImageRecord
certified now r = record r { certified_at = or_now now r.certified_at }

unfoldable pub upsert_certified_tool_image_record :
    Time → CertifiedToolImageRecord → IndexFile → Result (Unit {0} × IndexFile)
upsert_certified_tool_image_record now r f =
    if is_empty r.image_digest
    then err empty_key
    else ok (
      tt,
      record f {
        certified_tool_image_records =
            upsert_first (λ a. same_certified_tool_key a (certified now r)) (certified now r)
              f.certified_tool_image_records;
      },
    )

abbrev pub has_key : String → String → CertifiedToolImageRecord → Bool
has_key spec platform r = r.tool_spec_digest == spec && r.platform == platform

unfoldable pub get_certified_tool_image_record_by_tool_spec_digest_and_platform :
    String → String → IndexFile → Result CertifiedToolImageRecord
get_certified_tool_image_record_by_tool_spec_digest_and_platform spec platform f =
    or_not_found (find_first (has_key spec platform) f.certified_tool_image_records)

unfoldable pub get_certified_tool_image_record :
    String → IndexFile → Result CertifiedToolImageRecord
get_certified_tool_image_record digest f =
    or_not_found (find_first (λ r. r.image_digest == digest) f.certified_tool_image_records)

unfoldable pub list_certified_tool_image_records :
    PromotionStatus → IndexFile → List CertifiedToolImageRecord
list_certified_tool_image_records status f =
    keep (λ r. promotion_filter status r.promotion_status) f.certified_tool_image_records

abbrev pub has_catalog_cas : String → ToolFunctionCatalogEntry → Bool
has_catalog_cas cas e = e.cas_hash == cas

abbrev pub catalogued : Time → ToolFunctionCatalogEntry → ToolFunctionCatalogEntry
catalogued now e = record e { certified_at = or_now now e.certified_at }

unfoldable pub upsert_tool_function_catalog_entry :
    Time → ToolFunctionCatalogEntry → IndexFile → Result (Unit {0} × IndexFile)
upsert_tool_function_catalog_entry now e f =
    if is_empty e.cas_hash
    then err empty_key
    else ok (
      tt,
      record f {
        tool_function_catalog_entries =
            upsert_first (has_catalog_cas e.cas_hash) (catalogued now e)
              f.tool_function_catalog_entries;
      },
    )

unfoldable pub list_tool_function_catalog_entries :
    PromotionStatus → IndexFile → List ToolFunctionCatalogEntry
list_tool_function_catalog_entries status f =
    keep (λ e. promotion_filter status e.promotion_status) f.tool_function_catalog_entries

-- The set of the CAS hashes of the Active entries, as a list.
unfoldable pub active_hashes : List Entry → List String
active_hashes es = map (λ e. e.cas_hash) (keep is_active es)

unfoldable pub list_active_tool_function_catalog_entries :
    PromotionStatus → IndexFile → List ToolFunctionCatalogEntry
unfolding active_hashes
list_active_tool_function_catalog_entries status f =
    keep
      (λ e.
        found (find_first (λ h. h == e.cas_hash) (active_hashes f.entries))
        && promotion_filter status e.promotion_status)
      f.tool_function_catalog_entries

unfoldable pub get_active_tool_function_catalog_entry :
    String → IndexFile → Result ToolFunctionCatalogEntry
get_active_tool_function_catalog_entry cas f =
    if found (find_first (λ e. has_cas cas e && is_active e) f.entries)
    then or_not_found (find_first (has_catalog_cas cas) f.tool_function_catalog_entries)
    else err not_found
