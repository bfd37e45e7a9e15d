-- ===== src/Index/Functions/Register.antt =====
-- pkg/index/store.go, RegisterToolFunctionAtomic as it runs against the directory: the writer's
-- checks, the durability repair, and the persist with its rollback.
pub mod Durable
use node_vault.Base.{ℕ, Bool, true, false, not, Option, length, List, if◌then◌else◌}
use node_vault.Index.Schema.{
  IndexFile, RegisteredToolFunction, ToolFunctionPresentationRevision, ToolFunctionOperation,
  complete,
}
use node_vault.Index.Errors.{Result, ok, err, incomplete_operation, persisted_not_durable}
use node_vault.Index.Disk.{Codec, Env, M, World, ◌>>=◌, ◌>>◌, with_idx, persist_locked, lock_writer}
use node_vault.Index.Save.{begin_write}
use node_vault.Index.Builds.{take}
use node_vault.Index.Functions.{EnvelopeOf, Plan, replays, refuses, persists, plan_register}

abbrev pub with_durability : Bool → World → World
with_durability b w = record w { store = record w.store { durability_uncertain = b } }

abbrev pub with_committed : World → World
with_committed w = record w { store = record w.store { writer_committed = true } }

abbrev repaired : Result (Unit {0}) × World → Result (Unit {0}) × World
repaired (ok tt, w) = (ok tt, with_durability false w)
repaired (err e, w) = (err e, w)

-- `repairToolFunctionDurabilityLocked`
unfoldable pub repair : Codec → Env → M (Unit {0})
repair c env w =
    if w.store.durability_uncertain
    then repaired (persist_locked c env.repair_fault w)
    else (ok tt, w)

-- The reslices of the rollback, to the lengths before the appends.
unfoldable pub cut : IndexFile → World → World
cut f w =
    with_idx
      (record w.store.idx {
        registered_tool_functions =
            take (length f.registered_tool_functions) w.store.idx.registered_tool_functions;
        tool_function_presentation_revisions =
            take (length f.tool_function_presentation_revisions)
              w.store.idx.tool_function_presentation_revisions;
        tool_function_request_records =
            take (length f.tool_function_request_records) w.store.idx.tool_function_request_records;
      })
      w

-- What becomes of the appends: they stay once the file has them, and a rename that may not be durable
-- is to be repaired before the next answer.
unfoldable pub settle_persist :
    IndexFile
    → RegisteredToolFunction × Bool
    → Result (Unit {0}) × World
    → Result (RegisteredToolFunction × Bool) × World
unfolding cut
settle_persist f answer (ok tt, w) = (ok answer, with_committed w)
settle_persist f answer (err persisted_not_durable, w) =
    (err persisted_not_durable, with_committed (with_durability true w))
settle_persist f answer (err e, w) = (err e, cut f w)

unfoldable pub carry_out : Codec → Env → Plan → M (RegisteredToolFunction × Bool)
unfolding settle_persist
carry_out c env (replays r) w = (ok (r, false), w)
carry_out c env (refuses e) w = (err e, w)
carry_out c env (persists r new f) w =
    settle_persist w.store.idx (r, new) (persist_locked c env.persist_fault (with_idx f w))

unfoldable pub decide_and_write :
    EnvelopeOf
    → Codec
    → Env
    → ToolFunctionOperation
    → RegisteredToolFunction
    → Option ToolFunctionPresentationRevision
    → M (RegisteredToolFunction × Bool)
unfolding carry_out
decide_and_write envelope_of c env op rec rev w =
    carry_out c env (plan_register envelope_of env.now op rec rev w.store.idx) w

-- `RegisterToolFunctionAtomic`: the record, and whether it is new.
unfoldable pub register_tool_function_atomic :
    EnvelopeOf
    → Codec
    → Env
    → ToolFunctionOperation
    → RegisteredToolFunction
    → Option ToolFunctionPresentationRevision
    → M (RegisteredToolFunction × Bool)
unfolding repair decide_and_write
register_tool_function_atomic envelope_of c env op rec rev w =
    if not (complete op)
    then (err incomplete_operation, w)
    else (do
      lock_writer env
      begin_write c env
      repair c env
      decide_and_write envelope_of c env op rec rev)
        w
