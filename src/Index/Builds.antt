-- ===== src/Index/Builds.antt =====
-- pkg/index/store.go, the resolved specs, the build records and the image records.
pub mod Images
mod Examples
use node_vault.Base.{
  ℕ, zero, suc, Time, String, Bool, true, false, ◌&&◌, Option, none, some, List, [], ◌∷◌, ◌==◌,
  is_empty, or_now, ltb, length, find_first, keep, snoc, if◌then◌else◌,
}
use node_vault.Index.Schema.{IndexFile, ResolvedToolSpec, ToolBuildRecord, ToolImageRecord}
use node_vault.Index.Errors.{
  Error, Result, ok, err, ◌>>=◌, already_exists, empty_key, reloaded, persisted_not_durable,
}
use node_vault.Index.Sections.{append_new, or_not_found}
use node_vault.Index.Disk as Disk
use node_vault.Index.Disk.{Codec, Env, M, World, with_idx}
use node_vault.Index.Save.{save}

abbrev pub has_spec : String → ResolvedToolSpec → Bool
has_spec digest r = r.tool_spec_digest == digest

abbrev resolved : Time → ResolvedToolSpec → ResolvedToolSpec
resolved now r = record r { resolved_at = or_now now r.resolved_at }

unfoldable pub append_resolved_tool_spec :
    Time → ResolvedToolSpec → IndexFile → Result (Unit {0} × IndexFile)
append_resolved_tool_spec now r f = do
  rs ←
      append_new (is_empty r.tool_spec_digest) (has_spec r.tool_spec_digest) already_exists
        (resolved now r) f.resolved_tool_specs
  ok (tt, record f { resolved_tool_specs = rs })

-- What `UpsertResolvedToolSpec` decides: the record to answer with, and the index to save unless
-- there was such a record.
unfoldable pub upsert_resolved_tool_spec :
    Time → ResolvedToolSpec → IndexFile → Result (ResolvedToolSpec × Option IndexFile)
upsert_resolved_tool_spec now r f =
    if is_empty r.tool_spec_digest
    then err empty_key
    else elim (find_first (has_spec r.tool_spec_digest) f.resolved_tool_specs) [
      | some old ↦ ok (old, none)
      | none ↦ ok (
        resolved now r,
        some (record f { resolved_tool_specs = snoc f.resolved_tool_specs (resolved now r) }),
      )
    ]

abbrev kept_or_saved : Codec → Env → ResolvedToolSpec × Option IndexFile → M ResolvedToolSpec
kept_or_saved c env (old, none) w = (ok old, w)
kept_or_saved c env (new, some f) w = Disk.◌>>=◌ (save c env) (λ _. Disk.pure new) (with_idx f w)

-- `UpsertResolvedToolSpec`: nothing is saved for a record that is there.
unfoldable pub save_resolved_tool_spec : Codec → Env → ResolvedToolSpec → M ResolvedToolSpec
unfolding upsert_resolved_tool_spec
save_resolved_tool_spec c env r w = elim (upsert_resolved_tool_spec env.now r w.store.idx) [
  | err e ↦ (err e, w)
  | ok decided ↦ kept_or_saved c env decided w
]

unfoldable pub get_resolved_tool_spec_by_digest : String → IndexFile → Result ResolvedToolSpec
get_resolved_tool_spec_by_digest digest f =
    or_not_found (find_first (has_spec digest) f.resolved_tool_specs)

abbrev pub has_build : String → ToolBuildRecord → Bool
has_build id r = r.build_id == id

unfoldable pub append_tool_build_record :
    ToolBuildRecord → IndexFile → Result (Unit {0} × IndexFile)
append_tool_build_record r f = do
  rs ← append_new (is_empty r.build_id) (has_build r.build_id) already_exists r f.tool_build_records
  ok (tt, record f { tool_build_records = rs })

unfoldable pub get_tool_build_record_by_build_id : String → IndexFile → Result ToolBuildRecord
get_tool_build_record_by_build_id id f =
    or_not_found (find_first (has_build id) f.tool_build_records)

unfoldable pub list_tool_build_records_by_tool_spec_digest :
    String → IndexFile → List ToolBuildRecord
list_tool_build_records_by_tool_spec_digest digest f =
    keep (λ r. r.tool_spec_digest == digest) f.tool_build_records

-- One image may be recorded once for each build.
abbrev pub has_image : String → String → ToolImageRecord → Bool
has_image digest build r = r.image_digest == digest && r.build_id == build

abbrev pub pushed : Time → ToolImageRecord → ToolImageRecord
pushed now r = record r { pushed_at = or_now now r.pushed_at }

unfoldable pub append_image :
    Time → ToolImageRecord → List ToolImageRecord → Result (List ToolImageRecord)
append_image now r rs =
    append_new (is_empty r.image_digest) (has_image r.image_digest r.build_id) already_exists
      (pushed now r) rs

-- `xs[:n]`
abbrev pub take {ℓ} : {A : Type ℓ} → ℕ → List A → List A
take n [] = []
take zero (x ∷ xs) = []
take (suc n) (x ∷ xs) = x ∷ take n xs

abbrev pub with_images : List ToolImageRecord → IndexFile → IndexFile
with_images rs f = record f { tool_image_records = rs }

abbrev pub drop_images : ℕ → World → World
drop_images n w = with_idx (with_images (take n w.store.idx.tool_image_records) w.store.idx) w

-- The record goes when the save failed before the rename; it stays when the file has it, and it is
-- gone already when the save reloaded the index.
unfoldable pub undo_image : ℕ → Result (Unit {0}) × World → Result (Unit {0}) × World
undo_image n (ok tt, w) = (ok tt, w)
undo_image n (err persisted_not_durable, w) = (err persisted_not_durable, w)
undo_image n (err reloaded, w) = (err reloaded, w)
undo_image n (err e, w) = (err e, drop_images n w)

unfoldable pub append_tool_image_record : Codec → Env → ToolImageRecord → M (Unit {0})
append_tool_image_record c env r w = elim (append_image env.now r w.store.idx.tool_image_records) [
  | err e ↦ (err e, w)
  | ok rs ↦
      undo_image (length w.store.idx.tool_image_records)
        (save c env (with_idx (with_images rs w.store.idx) w))
]

unfoldable pub get_tool_image_record_by_digest : String → IndexFile → Result ToolImageRecord
get_tool_image_record_by_digest digest f =
    or_not_found (find_first (λ r. r.image_digest == digest) f.tool_image_records)

-- The loop of `latestToolImageRecord`, from the latest record so far.
unfoldable pub latest :
    (ToolImageRecord → Bool)
    → Option ToolImageRecord
    → List ToolImageRecord
    → Option ToolImageRecord
latest p best [] = best
latest p none (r ∷ rs) = latest p (if p r then some r else none) rs
latest p (some b) (r ∷ rs) =
    latest p (if p r && ltb b.pushed_at r.pushed_at then some r else some b) rs

unfoldable pub latest_tool_image_record :
    (ToolImageRecord → Bool) → IndexFile → Result ToolImageRecord
unfolding latest
latest_tool_image_record p f = or_not_found (latest p none f.tool_image_records)

unfoldable pub get_latest_tool_image_record_by_digest : String → IndexFile → Result ToolImageRecord
unfolding latest_tool_image_record
get_latest_tool_image_record_by_digest digest f =
    latest_tool_image_record (λ r. r.image_digest == digest) f

unfoldable pub get_latest_tool_image_record_by_ref : String → IndexFile → Result ToolImageRecord
unfolding latest_tool_image_record
get_latest_tool_image_record_by_ref ref f = latest_tool_image_record (λ r. r.image_ref == ref) f

unfoldable pub list_tool_image_records_by_build_id : String → IndexFile → List ToolImageRecord
list_tool_image_records_by_build_id id f = keep (λ r. r.build_id == id) f.tool_image_records
