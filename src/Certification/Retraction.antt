-- ===== src/Certification/Retraction.antt =====
-- pkg/certification/service.go, RetractUnprovenCertifications: the loop over the Active
-- certifications, and the loop over the Active catalog entries.
use node_vault.Base.{
  ℕ, suc, Time, String, Bool, not, Option, none, some, List, [], ◌∷◌, ◌==◌, is_empty, find_first,
  if◌then◌else◌,
}
use node_vault.Index.Schema.{
  IndexFile, CertifiedToolImageRecord, ToolFunctionCatalogEntry, PromotionStatus, ToolCheckRecord,
}
use node_vault.Index.Errors.{Result, ok, err}
use node_vault.Index.Sections.{found}
use node_vault.Index.Builds.{get_tool_image_record_by_digest}
use node_vault.Index.Records.{get_tool_check_record_by_id}
use node_vault.Index.Certified.{
  upsert_certified_tool_image_record, upsert_tool_function_catalog_entry,
  list_certified_tool_image_records, list_tool_function_catalog_entries,
}
use node_vault.Certification.{Saved, save, is_proven, stable_ref_of, image_ref_of}

-- `retractedCas`, `retractedImages` and `survivors`, as lists, and `n`.
pub record Tally : Type 0 where
  pub retracted_cas : List String
  pub retracted_images : List String
  pub survivors : List CertifiedToolImageRecord
  pub count : ℕ

abbrev pub no_tally : Tally
no_tally = record { retracted_cas = []; retracted_images = []; survivors = []; count = 0 }

abbrev pub among : String → List String → Bool
among k ks = found (find_first (λ x. x == k) ks)

abbrev pub survivor_of : String → List CertifiedToolImageRecord → Option CertifiedToolImageRecord
survivor_of cas certs = find_first (λ c. c.cas_hash == cas) certs

-- A certification that is provable backs its CasHash, the first one of it.
abbrev pub survives : CertifiedToolImageRecord → Tally → Tally
survives cert t =
    if is_empty cert.cas_hash
    then t
    else if found (survivor_of cert.cas_hash t.survivors)
    then t
    else record t { survivors = cert ∷ t.survivors }

abbrev pub retracts : CertifiedToolImageRecord → Tally → Tally
retracts cert t = record t {
  retracted_cas =
      if is_empty cert.cas_hash then t.retracted_cas else cert.cas_hash ∷ t.retracted_cas;
  retracted_images = cert.image_digest ∷ t.retracted_images;
  count = suc t.count;
}

abbrev pub retracted : CertifiedToolImageRecord → CertifiedToolImageRecord
retracted cert = record cert { promotion_status = PromotionStatus.retracted }

abbrev pub and_then :
    {A B : Type 0} → Result A × Saved → (Saved → Result B × Saved) → Result B × Saved
and_then (ok _, s) next = next s
and_then (err e, s) next = (err e, s)

-- The loop over the snapshot of the Active certifications.
unfoldable pub retract_certifications :
    Time → List CertifiedToolImageRecord → Tally → Saved → Result Tally × Saved
unfolding is_proven save upsert_certified_tool_image_record
retract_certifications now [] t s = (ok t, s)
retract_certifications now (cert ∷ certs) t s =
    if is_proven s.index cert
    then retract_certifications now certs (survives cert t) s
    else and_then (save (upsert_certified_tool_image_record now (retracted cert)) s)
        (retract_certifications now certs (retracts cert t))

-- The entry rebuilt from the survivor's image and its driving check.
abbrev pub rebuilt :
    ToolFunctionCatalogEntry
    → CertifiedToolImageRecord
    → ToolCheckRecord
    → IndexFile
    → ToolFunctionCatalogEntry
unfolding get_tool_image_record_by_digest
rebuilt entry survivor check f = record entry {
  tool_name = survivor.tool_name;
  version = survivor.version;
  stable_ref = stable_ref_of survivor.tool_name survivor.version;
  image_digest = survivor.image_digest;
  image_ref = image_ref_of (get_tool_image_record_by_digest survivor.image_digest f);
  certified_at = survivor.certified_at;
  validation_hash = check.validation_hash;
}

-- `keepCatalogForSurvivor`
unfoldable pub keep_catalog_for_survivor :
    Time
    → ToolFunctionCatalogEntry
    → CertifiedToolImageRecord
    → Bool
    → Saved
    → Result (Unit {0}) × Saved
unfolding save get_tool_check_record_by_id upsert_tool_function_catalog_entry rebuilt
keep_catalog_for_survivor now entry survivor points_at_retracted s =
    if not points_at_retracted
    then (ok tt, s)
    else elim (get_tool_check_record_by_id survivor.check_id s.index) [
      | err e ↦ (err e, s)
      | ok check ↦
          save (upsert_tool_function_catalog_entry now (rebuilt entry survivor check s.index)) s
    ]

-- What becomes of one Active entry.
unfoldable pub retract_entry :
    Time → Tally → ToolFunctionCatalogEntry → Saved → Result (Unit {0}) × Saved
unfolding keep_catalog_for_survivor save upsert_tool_function_catalog_entry
retract_entry now t entry s =
    if not (among entry.cas_hash t.retracted_cas)
    then (ok tt, s)
    else elim (survivor_of entry.cas_hash t.survivors) [
      | some survivor ↦
          keep_catalog_for_survivor now entry survivor (among entry.image_digest t.retracted_images)
            s
      | none ↦
          save
            (upsert_tool_function_catalog_entry now
              (record entry { promotion_status = PromotionStatus.retracted }))
            s
    ]

-- The loop over the snapshot of the Active entries.
unfoldable pub retract_entries :
    Time → Tally → List ToolFunctionCatalogEntry → Saved → Result ℕ × Saved
unfolding retract_entry
retract_entries now t [] s = (ok t.count, s)
retract_entries now t (entry ∷ entries) s =
    and_then (retract_entry now t entry s) (retract_entries now t entries)

abbrev pub then_entries : Time → Result Tally × Saved → Result ℕ × Saved
unfolding retract_entries list_tool_function_catalog_entries
then_entries now (err e, s) = (err e, s)
then_entries now (ok t, s) = elim t.retracted_cas [
  | [] ↦ (ok t.count, s)
  | cas ∷ more ↦
      retract_entries now t (list_tool_function_catalog_entries PromotionStatus.active s.index) s
]

-- `RetractUnprovenCertifications`: how many were retracted.
unfoldable pub retract_unproven_certifications : Time → Saved → Result ℕ × Saved
unfolding retract_certifications list_certified_tool_image_records then_entries
retract_unproven_certifications now s = then_entries now (
    retract_certifications now (list_certified_tool_image_records PromotionStatus.active s.index)
      no_tally s)
