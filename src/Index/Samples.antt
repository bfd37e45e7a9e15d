-- ===== src/Index/Samples.antt =====
-- Sample records, faults and a codec, on which the examples of the index run.
use node_vault.Base.{String, false, Option, none, some, List, [], ◌∷◌, ℕ, eqb, ◌==◌, if◌then◌else◌}
use node_vault.Index.Schema.{
  IndexFile, Entry, ArtifactKind, LifecyclePhase, IntegrityHealth, ValidationRequestRecord,
  ValidationStatus, schema_version, empty_index,
}
use node_vault.Index.Disk.{Fence, Codec, Store, World, Env, w2_set_v1, generation_absent}

-- A registered tool.
abbrev pub tool : String → Entry
tool cas = record {
  cas_hash = cas;
  artifact_kind = ArtifactKind.tool;
  stable_ref = "bwa@1";
  tool_name = "bwa";
  version = "1";
  image_ref = "registry/bwa:1";
  image_digest = "sha256:1";
  spec_referrer_digest = "";
  observed_profile_digest = "";
  observed_profile_referrers = [];
  lifecycle_phase = LifecyclePhase.active;
  integrity_health = IntegrityHealth.partial;
  registered_at = 5;
  lifecycle_updated_at = 5;
  health_checked_at = 5;
}

abbrev pub index_of : List Entry → IndexFile
index_of es = record empty_index { entries = es }

-- An encoding that keeps the CasHash of the first entry.
abbrev pub encode_first : List Entry → String
encode_first [] = "{}"
encode_first (e ∷ es) = e.cas_hash

-- The fence files of the epochs 1 and 2.
abbrev pub fence_of : ℕ → Fence
fence_of n = record {
  profile = w2_set_v1;
  epoch = n;
  index_schema_version = schema_version;
  activated_at = 7;
  claimed_at = 7;
}

abbrev pub encode_epoch : ℕ → String
encode_epoch n = if eqb n 1 then "1" else "2"

abbrev pub decode_epoch : String → Option Fence
decode_epoch s = some (fence_of (if s == "1" then 1 else 2))

abbrev pub toy : Codec
toy = record {
  encode_index = λ f. encode_first f.entries;
  decode_index = λ s. some (index_of (tool s ∷ []));
  decode_schema = λ s. some schema_version;
  encode_fence = λ f. encode_epoch f.epoch;
  decode_fence = decode_epoch;
  digest = λ s. s;
}

-- Nothing fails.
abbrev pub calm : Env
calm = record {
  now = 7;
  lock_fails = false;
  fence_read_fails = false;
  schema_read_fails = false;
  index_read_fails = false;
  load_read_fails = false;
  fence_fault = none;
  repair_fault = none;
  persist_fault = none;
}

abbrev pub store_of : ℕ → IndexFile → String → Store
store_of epoch f generation = record {
  idx = f;
  durability_uncertain = false;
  writer_epoch = epoch;
  writer_committed = false;
  generation = generation;
}

-- A new Store on an empty directory.
abbrev pub fresh : World
fresh = record {
  store = store_of 0 empty_index generation_absent;
  disk = record { index = none; fence = none };
}

-- A Store whose file was written by another one since.
abbrev pub overtaken : World
overtaken = record {
  store = store_of 0 empty_index generation_absent;
  disk = record { index = some "cas-2"; fence = none };
}

-- A Store of the epoch 1 on a directory that the epoch 2 fences.
abbrev pub fenced : World
fenced = record {
  store = store_of 1 empty_index generation_absent;
  disk = record { index = none; fence = some "2" };
}

-- A Store with no epoch on a directory that the epoch 1 fences.
abbrev pub unclaimed : World
unclaimed = record {
  store = store_of 0 empty_index generation_absent;
  disk = record { index = none; fence = some "1" };
}

-- A validation request that the retrier still holds.
abbrev pub request : ValidationRequestRecord
request = record {
  validation_request_id = "req-1";
  build_id = "build-1";
  cas_hash = "cas-1";
  image_digest = "sha256:1";
  tool_spec_digest = "spec-1";
  sentinel_job_id = "";
  validation_status = ValidationStatus.enqueue_pending;
  failure_reason = "";
  artifact_kind = "tool";
  image_repository = "registry/bwa";
  tool_name = "bwa";
  version = "1";
  requested_actions = [];
  enqueue_attempts = 0;
  next_attempt_at = 0;
  requested_at = 1;
  queued_at = 0;
  completed_at = 0;
}

abbrev pub requests_of : List ValidationRequestRecord → IndexFile
requests_of rs = record empty_index { validation_request_records = rs }
