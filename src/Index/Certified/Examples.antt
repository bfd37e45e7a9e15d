-- ===== src/Index/Certified/Examples.antt =====
-- The theorems on the certification records and the catalog, at concrete indexes.
use node_vault.Base.{Time, ◌≡◌, refl, List, [], ◌∷◌, find_first, modify_first, keep}
use node_vault.Index.Schema.{
  CertifiedToolImageRecord, ToolFunctionCatalogEntry, PromotionStatus, LifecyclePhase, IndexFile,
  empty_index,
}
use node_vault.Index.Errors.{ok, err, is_ok, not_found}
use node_vault.Index.Sections.{update_first}
use node_vault.Index.Entries.{
  set_lifecycle_phase, move_phase, update_entry, valid_lifecycle_transition,
}
use node_vault.Index.Certified.{
  get_certified_tool_image_record_by_tool_spec_digest_and_platform,
  list_tool_function_catalog_entries, list_active_tool_function_catalog_entries,
  get_active_tool_function_catalog_entry,
}
use node_vault.Index.Certified.Keyed.{run_upserts, latest_decision, run_upserts-get}
use node_vault.Index.Certified.Exposure.{list_active-get_active, set_lifecycle_phase-get_active}
use node_vault.Index.Samples.{tool, index_of}

abbrev decision : CertifiedToolImageRecord
decision = record {
  image_digest = "sha256:1";
  tool_spec_digest = "spec-1";
  platform = "linux/amd64";
  tool_name = "bwa";
  version = "1";
  cas_hash = "cas-1";
  promotion_status = PromotionStatus.active;
  certified_at = 5;
  check_id = "check-1";
  scan_id = "scan-1";
}

-- A legacy record of the same image.
abbrev legacy : IndexFile
legacy = record empty_index {
  certified_tool_image_records = record decision { tool_spec_digest = ""; platform = "" } ∷ [];
}

abbrev shown : ToolFunctionCatalogEntry
shown = record {
  cas_hash = "cas-1";
  tool_name = "bwa";
  version = "1";
  stable_ref = "bwa@1";
  image_digest = "sha256:1";
  image_ref = "registry/bwa:1";
  display_label = "BWA";
  display_description = "";
  display_category = "";
  display_tags = [];
  promotion_status = PromotionStatus.active;
  certified_at = 5;
  validation_hash = "hash";
}

abbrev catalog : LifecyclePhase → IndexFile
catalog phase =
    record (index_of
      (record (tool "cas-1") { lifecycle_phase = phase; lifecycle_updated_at = 7 } ∷ [])) {
        tool_function_catalog_entries = shown ∷ [];
      }

-- A later decision for the same pair, and one for another platform.
abbrev decisions : List (Time × CertifiedToolImageRecord)
decisions =
    (9, decision)
    ∷ ((10, record decision { platform = "linux/arm64" })
        ∷ ((11, record decision { check_id = "check-2"; certified_at = 0 }) ∷ []))

run_upserts-get_example :
    get_certified_tool_image_record_by_tool_spec_digest_and_platform "spec-1" "linux/amd64"
      (run_upserts decisions legacy)
    ≡ ok (record decision { check_id = "check-2"; certified_at = 11 })
unfolding latest_decision
run_upserts-get_example =
    run_upserts-get decisions legacy "spec-1" "linux/amd64" (refl, (refl, (refl, tt))) refl refl

list_active-get_active_example :
    list_active_tool_function_catalog_entries PromotionStatus.active (catalog LifecyclePhase.active)
    ≡ keep
        (λ e.
          is_ok (get_active_tool_function_catalog_entry e.cas_hash (catalog LifecyclePhase.active)))
        (list_tool_function_catalog_entries PromotionStatus.active (catalog LifecyclePhase.active))
list_active-get_active_example =
    list_active-get_active PromotionStatus.active (catalog LifecyclePhase.active)

set_lifecycle_phase-get_active_example :
    get_active_tool_function_catalog_entry "cas-1" (catalog LifecyclePhase.retracted)
    ≡ err not_found
unfolding set_lifecycle_phase update_entry move_phase valid_lifecycle_transition update_first
    find_first modify_first
set_lifecycle_phase-get_active_example =
    set_lifecycle_phase-get_active 7 "cas-1" LifecyclePhase.retracted
      (catalog LifecyclePhase.active) ((refl, tt), (refl, tt)) (λ h. cc) refl
