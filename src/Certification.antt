-- ===== src/Certification.antt =====
-- pkg/certification/service.go: which check and scan records certify an image, and the retraction of
-- certifications that the stored records no longer prove. The store is its index, with the reads and
-- upserts of pkg/index. No other Store writes its file; a save may fail, and the index in memory then
-- keeps the change.
pub mod Provable
pub mod Retraction
pub mod Sweep
pub mod AfterRetraction
mod Examples
use Prim.Native.String.{◌++◌}
use node_vault.Base.{
  Time, String, Bool, true, false, not, ◌&&◌, ◌||◌, Option, none, some, List, [], ◌∷◌, ◌==◌,
  is_empty, ltb, if◌then◌else◌,
}
use node_vault.Index.Schema.{
  IndexFile, ToolCheckRecord, ToolScanRecord, ContractCheck, CertifiedToolImageRecord,
  ToolFunctionCatalogEntry, PromotionStatus, Entry, ToolImageRecord,
}
use node_vault.Index.Errors.{Error, Result, ok, err, is_ok, empty_key, io_failure, ◌>>=◌, ◌>>◌}
use node_vault.Index.Entries.{get_by_image_digest}
use node_vault.Index.Builds.{get_tool_image_record_by_digest}
use node_vault.Index.Records.{
  get_tool_check_record_by_id, get_tool_scan_record_by_id, list_tool_check_records_by_image_digest,
  list_tool_scan_records_by_image_digest,
}
use node_vault.Index.Certified.{
  upsert_certified_tool_image_record, upsert_tool_function_catalog_entry,
}

-- The index in memory, and for each save to come whether it fails.
pub record Saved : Type 0 where
  pub index : IndexFile
  pub failing : List Bool

abbrev pub save_fails : List Bool → Bool
save_fails [] = false
save_fails (b ∷ bs) = b

abbrev pub later_saves : List Bool → List Bool
later_saves [] = []
later_saves (b ∷ bs) = bs

abbrev pub at_index : IndexFile → Saved → Saved
at_index f s = record { index = f; failing = later_saves s.failing }

abbrev pub saved : Bool → IndexFile → Saved → Result (Unit {0}) × Saved
saved fails f s = if fails then (err io_failure, at_index f s) else (ok tt, at_index f s)

abbrev pub settled : Saved → Result (Unit {0} × IndexFile) → Result (Unit {0}) × Saved
settled s (err e) = (err e, s)
settled s (ok (_, f)) = saved (save_fails s.failing) f s

-- One call of a Store that saves: a refusal changes nothing, a failed save keeps the change.
unfoldable pub save :
    (IndexFile → Result (Unit {0} × IndexFile)) → Saved → Result (Unit {0}) × Saved
save op s = settled s (op s.index)

abbrev pub contract_passed : String → Bool
contract_passed result = result == "pass" || result == "passed"

abbrev pub outputs_observed : Option ContractCheck → Bool
outputs_observed none = false
outputs_observed (some c) = c.all_outputs_present && contract_passed c.result

-- `evidenceIneligibility(check) == ""`; the reason is only logged.
unfoldable pub is_admissible : ToolCheckRecord → Bool
is_admissible check =
    if not (check.validation_status == "succeeded")
    then false
    else if not (check.stage == "L5A")
    then false
    else if is_empty check.validation_hash
    then false
    else outputs_observed check.contract_check

unfoldable pub certifies_on_check : ToolCheckRecord → Bool
unfolding is_admissible
certifies_on_check check = is_admissible check && check.terminal

abbrev pub is_blocked : ToolScanRecord → Bool
is_blocked scan = scan.policy_result == "blocked"

abbrev pub blocks : Option ToolScanRecord → Bool
blocks none = false
blocks (some scan) = is_blocked scan

abbrev pub scan_id_of : Option ToolScanRecord → String
scan_id_of none = ""
scan_id_of (some scan) = scan.scan_id

abbrev pub cas_hash_of : Result Entry → String
cas_hash_of (ok e) = e.cas_hash
cas_hash_of (err _) = ""

abbrev pub image_ref_of : Result ToolImageRecord → String
image_ref_of (ok r) = r.image_ref
image_ref_of (err _) = ""

abbrev pub promotion_of : Option ToolScanRecord → PromotionStatus
promotion_of scan = if blocks scan then PromotionStatus.retracted else PromotionStatus.active

-- The decision of `certify`, with the CasHash of the exact image that was validated.
unfoldable pub certificate :
    Time → ToolCheckRecord → Option ToolScanRecord → IndexFile → CertifiedToolImageRecord
unfolding get_by_image_digest
certificate now check scan f = record {
  image_digest = check.image_digest;
  tool_spec_digest = check.tool_spec_digest;
  platform = check.platform;
  tool_name = check.tool_name;
  version = check.version;
  cas_hash = cas_hash_of (get_by_image_digest check.image_digest f);
  promotion_status = promotion_of scan;
  certified_at = now;
  check_id = check.check_id;
  scan_id = scan_id_of scan;
}

-- `fmt.Sprintf("%s@%s", name, version)`
abbrev pub stable_ref_of : String → String → String
stable_ref_of name version = name ++ "@" ++ version

unfoldable pub catalog_entry :
    ToolCheckRecord → CertifiedToolImageRecord → IndexFile → ToolFunctionCatalogEntry
unfolding get_tool_image_record_by_digest
catalog_entry check cert f = record {
  cas_hash = cert.cas_hash;
  tool_name = check.tool_name;
  version = check.version;
  stable_ref = stable_ref_of check.tool_name check.version;
  image_digest = check.image_digest;
  image_ref = image_ref_of (get_tool_image_record_by_digest check.image_digest f);
  display_label = check.tool_name;
  display_description = "";
  display_category = "";
  display_tags = [];
  promotion_status = cert.promotion_status;
  certified_at = cert.certified_at;
  validation_hash = check.validation_hash;
}

-- What `certify` does once the certification is saved.
unfoldable pub publish :
    Time
    → ToolCheckRecord
    → CertifiedToolImageRecord
    → Result (Unit {0}) × Saved
    → Result (Unit {0}) × Saved
unfolding save catalog_entry upsert_tool_function_catalog_entry
publish now check cert (err e, s) = (err e, s)
publish now check cert (ok _, s) =
    if is_empty cert.cas_hash
    then (ok tt, s)
    else save (upsert_tool_function_catalog_entry now (catalog_entry check cert s.index)) s

-- `certify`; an empty name or version is refused.
unfoldable pub certify :
    Time → ToolCheckRecord → Option ToolScanRecord → Saved → Result (Unit {0}) × Saved
unfolding publish certificate save upsert_certified_tool_image_record
certify now check scan s =
    if is_empty check.tool_name || is_empty check.version
    then (err empty_key, s)
    else publish now check (certificate now check scan s.index)
        (save (upsert_certified_tool_image_record now (certificate now check scan s.index)) s)

-- The loop for the latest scan: of two at the same time the first stays.
unfoldable pub latest_scan : Option ToolScanRecord → List ToolScanRecord → Option ToolScanRecord
latest_scan best [] = best
latest_scan none (s ∷ ss) = latest_scan (some s) ss
latest_scan (some best) (s ∷ ss) =
    latest_scan (some (if ltb best.scanned_at s.scanned_at then s else best)) ss

-- `EvaluateAfterCheck`
unfoldable pub evaluate_after_check : Time → ToolCheckRecord → Saved → Result (Unit {0}) × Saved
unfolding is_admissible certify latest_scan list_tool_scan_records_by_image_digest
evaluate_after_check now check s =
    if not (is_admissible check)
    then (ok tt, s)
    else if not check.terminal
    then (ok tt, s)
    else certify now check
        (latest_scan none (list_tool_scan_records_by_image_digest check.image_digest s.index)) s

abbrev pub terminal_l5b : ToolScanRecord → Bool
terminal_l5b scan = scan.terminal && scan.stage == "L5B"

-- The loop over the check records of the image: the first that is admissible certifies.
unfoldable pub certify_first :
    Time → ToolScanRecord → List ToolCheckRecord → Saved → Result (Unit {0}) × Saved
unfolding certify
certify_first now scan [] s = (ok tt, s)
certify_first now scan (c ∷ cs) s =
    if is_admissible c then certify now c (some scan) s else certify_first now scan cs s

-- `EvaluateAfterScan`
unfoldable pub evaluate_after_scan : Time → ToolScanRecord → Saved → Result (Unit {0}) × Saved
unfolding certify_first list_tool_check_records_by_image_digest
evaluate_after_scan now scan s =
    if not (terminal_l5b scan) && not (is_blocked scan)
    then (ok tt, s)
    else certify_first now scan (list_tool_check_records_by_image_digest scan.image_digest s.index)
        s

abbrev pub closes : Result ToolScanRecord → Bool
closes (ok scan) = terminal_l5b scan
closes (err _) = false

abbrev pub proves : IndexFile → CertifiedToolImageRecord → Result ToolCheckRecord → Bool
unfolding is_admissible get_tool_scan_record_by_id
proves f cert (err _) = false
proves f cert (ok check) =
    if not (is_admissible check)
    then false
    else if check.terminal
    then true
    else if not (is_empty cert.scan_id) && closes (get_tool_scan_record_by_id cert.scan_id f)
    then true
    else false

-- `unprovenReason(cert) == ""`; the reason is only logged.
unfoldable pub is_proven : IndexFile → CertifiedToolImageRecord → Bool
unfolding get_tool_check_record_by_id get_tool_scan_record_by_id is_admissible
is_proven f cert =
    if is_empty cert.check_id
    then false
    else proves f cert (get_tool_check_record_by_id cert.check_id f)
