-- ===== src/Index/Save.antt =====
-- pkg/index/toolfunction_writer_fence.go, and `save` of store.go: who may write the index file.
pub mod Quiet
pub mod Outcome
pub mod Commit
pub mod Safety
pub mod Fencing
mod Examples
use node_vault.Base.{
  ℕ, ◌+◌, Time, Bool, true, false, not, ◌||◌, Option, none, some, ltb, eqb, is_zero, ◌==◌,
  if◌then◌else◌,
}
use node_vault.Index.Schema.{IndexFile, schema_version}
use node_vault.Index.Errors.{Result, ok, err, writer_fenced, reloaded, io_failure, parse_failure}
use node_vault.Index.Disk.{
  Fence, Codec, PersistStep, Env, M, ◌>>=◌, ◌>>◌, pure, raise, w2_set_v1, with_idx, load,
  stops_before_rename, stops_after_rename, persist_locked, lock_writer, check_generation,
}

-- `readToolFunctionWriterFence`
unfoldable pub read_fence : Codec → Env → M (Option Fence)
read_fence c env w = if env.fence_read_fails then (err io_failure, w) else elim w.disk.fence [
  | none ↦ (ok none, w)
  | some bytes ↦ elim (c.decode_fence bytes) [
    | none ↦ (err parse_failure, w)
    | some f ↦ (ok (some f), w)
  ]
]

-- `readOnDiskSchemaVersion`; `none` is "not present".
unfoldable pub read_schema : Codec → Env → M (Option ℕ)
read_schema c env w = if env.schema_read_fails then (err io_failure, w) else elim w.disk.index [
  | none ↦ (ok none, w)
  | some bytes ↦ elim (c.decode_schema bytes) [
    | none ↦ (err parse_failure, w)
    | some v ↦ (ok (some v), w)
  ]
]

-- `writeToolFunctionWriterFence`, whose errors after the rename carry no tag.
unfoldable pub write_fence : Codec → Option PersistStep → Fence → M (Unit {0})
write_fence c fault f w =
    if stops_before_rename fault
    then (err io_failure, w)
    else let w' = record w { disk = record w.disk { fence = some (c.encode_fence f) } } in
      if stops_after_rename fault then (err io_failure, w') else (ok tt, w')

-- The fence is of a profile or an index schema that this binary does not support.
unfoldable pub unsupported : Option Fence → Bool
unsupported none = false
unsupported (some f) = not (f.profile == w2_set_v1) || ltb schema_version f.index_schema_version

-- The fence on disk is not the one that this writer claimed.
unfoldable pub superseded : ℕ → Option Fence → Bool
superseded epoch none = true
superseded epoch (some f) = not (eqb f.epoch epoch)

-- A binary of an older schema rewrote the index after this writer committed.
unfoldable pub downgraded : Option ℕ → Bool
downgraded none = false
downgraded (some v) = ltb v schema_version

abbrev pub refuse_if : Bool → M (Unit {0})
refuse_if bad w = if bad then (err writer_fenced, w) else (ok tt, w)

-- The fence of a new claim: the next epoch, under the first activation time.
unfoldable pub next_fence : Time → Option Fence → Fence
next_fence now none = record {
  profile = w2_set_v1;
  epoch = 1;
  index_schema_version = schema_version;
  activated_at = now;
  claimed_at = now;
}
next_fence now (some f) = record {
  profile = w2_set_v1;
  epoch = f.epoch + 1;
  index_schema_version = schema_version;
  activated_at = if is_zero f.activated_at then now else f.activated_at;
  claimed_at = now;
}

unfoldable pub set_epoch : ℕ → M (Unit {0})
set_epoch n w = (ok tt, record w { store = record w.store { writer_epoch = n } })

-- The check of a writer that holds an epoch.
unfoldable pub verify_epoch : Codec → Env → Option Fence → M (Unit {0})
unfolding superseded downgraded read_schema
verify_epoch c env fence w =
    if superseded w.store.writer_epoch fence
    then (err writer_fenced, w)
    else if not w.store.writer_committed
    then (ok tt, w)
    else (read_schema c env >>= λ v. refuse_if (downgraded v)) w

-- The claim of a writer that holds none.
unfoldable pub claim_epoch : Codec → Env → Option Fence → M (Unit {0})
unfolding load write_fence set_epoch next_fence
claim_epoch c env fence = do
  load c env
  write_fence c env.fence_fault (next_fence env.now fence)
  set_epoch (next_fence env.now fence).epoch

abbrev verify_or_claim : Codec → Env → Option Fence → M (Unit {0})
verify_or_claim c env fence w =
    if eqb w.store.writer_epoch 0 then claim_epoch c env fence w else verify_epoch c env fence w

-- `ensureToolFunctionWriterLocked`
unfoldable pub ensure_writer : Codec → Env → M (Unit {0})
unfolding read_fence unsupported
ensure_writer c env = do
  fence ← read_fence c env
  refuse_if (unsupported fence)
  verify_or_claim c env fence

abbrev check_epoch : Codec → Env → M (Unit {0})
check_epoch c env w = if eqb w.store.writer_epoch 0 then (ok tt, w) else ensure_writer c env w

-- What `save` does once it knows whether the file moved under this Store.
unfoldable pub persist_or_reload : Codec → Env → Bool → M (Unit {0})
persist_or_reload c env true = do load c env; raise reloaded
persist_or_reload c env false = persist_locked c env.persist_fault

-- `save`
unfoldable pub save : Codec → Env → M (Unit {0})
unfolding lock_writer check_generation persist_or_reload
save c env = do
  lock_writer env
  check_epoch c env
  stale ← check_generation c env
  persist_or_reload c env stale

abbrev reload_if : Codec → Env → Bool → M (Unit {0})
reload_if c env true = load c env
reload_if c env false = pure tt

-- `beginToolFunctionWriteLocked`
unfoldable pub begin_write : Codec → Env → M (Unit {0})
unfolding check_generation
begin_write c env = do ensure_writer c env; stale ← check_generation c env; reload_if c env stale

-- The shape of every write of the Store but the ToolFunction registration: validate and change the
-- index in memory, then save it. A refusal changes nothing; a failed save keeps the change.
unfoldable pub commit : {A : Type 0} → Codec → Env → (IndexFile → Result (A × IndexFile)) → M A
commit c env f w = elim (f w.store.idx) [
  | err e ↦ (err e, w)
  | ok (a, idx) ↦ (save c env >>= λ _. pure a) (with_idx idx w)
]
