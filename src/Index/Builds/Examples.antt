-- ===== src/Index/Builds/Examples.antt =====
-- The theorems on the image records, at concrete records.
use node_vault.Base.{[], ◌∷◌, ◌==◌}
use node_vault.Index.Schema.{ToolImageRecord, IndexFile, empty_index}
use node_vault.Index.Builds.{append_tool_image_record, latest_tool_image_record}
use node_vault.Index.Builds.Images.{
  NoGhost, IsLatest, append_tool_image_record-NoGhost, latest_tool_image_record_lem,
}
use node_vault.Index.Samples.{toy, calm, overtaken}

abbrev image : ToolImageRecord
image = record {
  image_digest = "sha256:1";
  image_ref = "registry/bwa:1";
  tool_spec_digest = "spec-1";
  build_id = "build-1";
  pushed_at = 5;
  platform = "linux/amd64";
}

abbrev two_images : IndexFile
two_images = record empty_index {
  tool_image_records = image ∷ record image { build_id = "build-2"; pushed_at = 6 } ∷ [];
}

append_tool_image_record-NoGhost_example :
    NoGhost toy overtaken (append_tool_image_record toy calm image overtaken).1
append_tool_image_record-NoGhost_example = append_tool_image_record-NoGhost toy calm image overtaken

latest_tool_image_record_lem_example :
    IsLatest
      (λ r. r.image_digest == "sha256:1")
      two_images.tool_image_records
      (latest_tool_image_record (λ r. r.image_digest == "sha256:1") two_images)
latest_tool_image_record_lem_example =
    latest_tool_image_record_lem (λ r. r.image_digest == "sha256:1") two_images
