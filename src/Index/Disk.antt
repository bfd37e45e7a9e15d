-- ===== src/Index/Disk.antt =====
-- pkg/index/store.go (load, save, persistLocked) and toolfunction_writer_fence.go: the index file,
-- the writer fence beside it, and a Store's view of the two. An operation runs under the writer
-- lock and is one step; what the operating system may refuse is an argument, `Env`.
use node_vault.Base.{
  ℕ, Time, String, Bool, true, false, not, Option, none, some, ltb, ◌==◌, ◌≡◌, ◌≢◌, if◌then◌else◌,
}
use node_vault.Index.Schema.{IndexFile, schema_version, empty_index}
use node_vault.Index.Errors.{
  Error, Result, ok, err, persisted_not_durable, io_failure, parse_failure, newer_schema,
}

-- `toolFunctionWriterFence`
pub record Fence : Type 0 where
  pub profile : String
  pub epoch : ℕ
  pub index_schema_version : ℕ
  pub activated_at : Time
  pub claimed_at : Time

-- encoding/json and crypto/sha256, which the source only calls.
pub record Codec : Type 0 where
  pub encode_index : IndexFile → String
  pub decode_index : String → Option IndexFile
  pub decode_schema : String → Option ℕ
  pub encode_fence : Fence → String
  pub decode_fence : String → Option Fence
  pub digest : String → String

-- What the code relies on: an encoded value reads back, and the digest tells two contents of the
-- file apart (`none`: there is no file), which "absent" is the generation of.
abbrev pub IndexReadsBack : Codec → IndexFile → Type 0
IndexReadsBack c f = c.decode_index (c.encode_index f) ≡ some f

abbrev pub FenceReadsBack : Codec → Fence → Type 0
FenceReadsBack c f = c.decode_fence (c.encode_fence f) ≡ some f

abbrev pub TellsApart : Codec → Option String → Option String → Type 0
TellsApart c none none = Unit
TellsApart c none (some b) = c.digest b ≢ "absent"
TellsApart c (some a) none = c.digest a ≢ "absent"
TellsApart c (some a) (some b) = c.digest a ≡ c.digest b → a ≡ b

-- The index directory: vault-index.json and the fence file.
pub record Disk : Type 0 where
  pub index : Option String
  pub fence : Option String

-- `Store`
pub record Store : Type 0 where
  pub idx : IndexFile
  pub durability_uncertain : Bool
  pub writer_epoch : ℕ
  pub writer_committed : Bool
  pub generation : String

pub record World : Type 0 where
  pub store : Store
  pub disk : Disk

-- The system calls of `persistLocked` and `writeToolFunctionWriterFence`, in order.
pub data PersistStep : Type 0 where
  create_temp write_temp sync_temp close_temp chmod_temp rename sync_dir : PersistStep

-- The clock, and which system calls fail, in one operation.
pub record Env : Type 0 where
  pub now : Time
  pub lock_fails : Bool
  pub fence_read_fails : Bool
  pub schema_read_fails : Bool
  pub index_read_fails : Bool
  pub load_read_fails : Bool
  pub fence_fault : Option PersistStep
  pub repair_fault : Option PersistStep
  pub persist_fault : Option PersistStep

-- An action of a Store on its directory. An error keeps the changes made before it.
abbrev pub M : Type 0 → Type 0
M A = World → Result A × World

-- What follows an action, on the action's result.
abbrev pub follow : {A B : Type 0} → Result A × World → (A → M B) → Result B × World
follow (ok a, w) f = f a w
follow (err e, w) f = (err e, w)

infixl 5 ◌>>=◌ ◌>>◌
abbrev pub ◌>>=◌ : {A B : Type 0} → M A → (A → M B) → M B
◌>>=◌ m f w = follow (m w) f

abbrev pub ◌>>◌ : {B : Type 0} → M (Unit {0}) → M B → M B
m >> k = m >>= λ _. k

abbrev pub pure : {A : Type 0} → A → M A
pure a w = (ok a, w)

abbrev pub raise : {A : Type 0} → Error → M A
raise e w = (err e, w)

-- `CanonicalizationW2SetV1`
abbrev pub w2_set_v1 : String
w2_set_v1 = "w2-set-v1"

-- `indexGenerationAbsent`
abbrev pub generation_absent : String
generation_absent = "absent"

abbrev pub with_idx : IndexFile → World → World
with_idx f w = record w { store = record w.store { idx = f } }

-- `load` once the file is read; `none` is a file that is not there.
unfoldable pub load_content : Codec → Option String → M (Unit {0})
load_content c none w = (
  ok tt,
  record w { store = record w.store { idx = empty_index; generation = generation_absent } },
)
load_content c (some bytes) w = elim (c.decode_index bytes) [
  | none ↦ (err parse_failure, w)
  | some f ↦
      if ltb schema_version f.schema
      then (err newer_schema, w)
      else (ok tt, record w { store = record w.store { idx = f; generation = c.digest bytes } })
]

unfoldable pub load : Codec → Env → M (Unit {0})
unfolding load_content
load c env w = if env.load_read_fails then (err io_failure, w) else load_content c w.disk.index w

-- A fault at a step before the rename leaves the file alone and the temporary file removed.
abbrev pub stops_before_rename : Option PersistStep → Bool
stops_before_rename none = false
stops_before_rename (some PersistStep.sync_dir) = false
stops_before_rename (some PersistStep.create_temp) = true
stops_before_rename (some PersistStep.write_temp) = true
stops_before_rename (some PersistStep.sync_temp) = true
stops_before_rename (some PersistStep.close_temp) = true
stops_before_rename (some PersistStep.chmod_temp) = true
stops_before_rename (some PersistStep.rename) = true

abbrev pub stops_after_rename : Option PersistStep → Bool
stops_after_rename (some PersistStep.sync_dir) = true
stops_after_rename _ = false

unfoldable pub persist_locked : Codec → Option PersistStep → M (Unit {0})
persist_locked c fault w =
    let f = record w.store.idx { schema = schema_version } in
    let bytes = c.encode_index f in
    if stops_before_rename fault
    then (err io_failure, with_idx f w)
    else let w' = record w {
      store = record w.store { idx = f; generation = c.digest bytes };
      disk = record w.disk { index = some bytes };
    } in
      if stops_after_rename fault then (err persisted_not_durable, w') else (ok tt, w')

unfoldable pub lock_writer : Env → M (Unit {0})
lock_writer env w = if env.lock_fails then (err io_failure, w) else (ok tt, w)

-- The digest of the file is not the generation that the Store remembers.
unfoldable pub file_moved : Codec → String → Option String → Bool
file_moved c generation none = not (generation == generation_absent)
file_moved c generation (some bytes) = not (c.digest bytes == generation)

-- `checkIndexGenerationLocked`
unfoldable pub moved : Codec → World → Bool
unfolding file_moved
moved c w = file_moved c w.store.generation w.disk.index

unfoldable pub check_generation : Codec → Env → M Bool
check_generation c env w = if env.index_read_fails then (err io_failure, w) else (ok (moved c w), w)
