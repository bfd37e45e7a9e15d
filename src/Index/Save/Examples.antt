-- ===== src/Index/Save/Examples.antt =====
-- The theorems on saving, at concrete worlds.
use mathlib.Core.Path.{subst}
use node_vault.Base.{◌≡◌, refl, ◌⊎◌, false, none, some, arith, ap, find_first}
use node_vault.Index.Schema.{IndexFile}
use node_vault.Index.Errors.{Error, ok, err, is_ok, ok-injective, persisted_not_durable}
use node_vault.Index.Disk.{
  IndexReadsBack, moved, file_moved, lock_writer, check_generation, load, load_content,
  persist_locked,
}
use node_vault.Index.Save.{
  save, commit, persist_or_reload, read_fence, unsupported, ensure_writer, claim_epoch, write_fence,
  set_epoch, next_fence,
}
use node_vault.Index.Save.Quiet.{writes_file, reaches_file}
use node_vault.Index.Save.Outcome.{InSync, stamped}
use node_vault.Index.Save.Safety.{save-stale, commit-atomic, commit-no_lost_update}
use node_vault.Index.Save.Fencing.{save-fenced, claim-fences_others}
use node_vault.Index.Sections.{append_new}
use node_vault.Index.Entries.{append_entry}
use node_vault.Index.Samples.{tool, toy, calm, fresh, overtaken, fenced, unclaimed}

save-stale_example :
    ((save toy calm overtaken).1.disk ≡ overtaken.disk)
    × (reaches_file (save toy calm overtaken).0 ≡ false)
    × (((save toy calm overtaken).1 ≡ overtaken)
        ⊎ InSync toy (save toy calm overtaken).1.store overtaken.disk.index)
unfolding moved file_moved
save-stale_example = save-stale toy calm overtaken refl

commit-atomic_example :
    (((commit toy calm (append_entry 7 (tool "cas-1")) fresh).1.disk ≡ fresh.disk)
      × (is_ok (commit toy calm (append_entry 7 (tool "cas-1")) fresh).0 ≡ false))
    ⊎ ((a : Unit {0}) × (idx : IndexFile) × (append_entry 7 (tool "cas-1") fresh.store.idx
          ≡ ok (a, idx))
        × ((commit toy calm (append_entry 7 (tool "cas-1")) fresh).1.disk.index
            ≡ some (toy.encode_index (stamped idx)))
        × ((commit toy calm (append_entry 7 (tool "cas-1")) fresh).1.store.idx ≡ stamped idx)
        × (((commit toy calm (append_entry 7 (tool "cas-1")) fresh).0 ≡ ok a)
            ⊎ ((commit toy calm (append_entry 7 (tool "cas-1")) fresh).0
                ≡ err persisted_not_durable)))
commit-atomic_example = commit-atomic toy calm (append_entry 7 (tool "cas-1")) fresh

appended-reads_back :
    (idx : IndexFile)
    → append_entry 7 (tool "cas-1") fresh.store.idx ≡ ok (tt, idx)
    → IndexReadsBack toy (stamped idx)
unfolding append_entry append_new find_first
appended-reads_back idx q =
    subst (λ i. IndexReadsBack toy (stamped i)) (ap (λ x. x.1) (ok-injective _ _ q)) refl

commit-no_lost_update_example :
    InSync toy fresh.store fresh.disk.index
    × ((idx : IndexFile) × (append_entry 7 (tool "cas-1") fresh.store.idx ≡ ok (tt, idx))
        × ((commit toy calm (append_entry 7 (tool "cas-1")) fresh).1.store.idx ≡ stamped idx)
        × InSync toy
            (commit toy calm (append_entry 7 (tool "cas-1")) fresh).1.store
            (commit toy calm (append_entry 7 (tool "cas-1")) fresh).1.disk.index)
unfolding commit save lock_writer check_generation moved file_moved persist_or_reload persist_locked
    append_entry append_new find_first
commit-no_lost_update_example =
    commit-no_lost_update toy calm (append_entry 7 (tool "cas-1")) fresh tt none (refl, refl) tt
      appended-reads_back refl

save-fenced_example :
    (e : Error) × (writes_file e ≡ false) × (save toy calm fenced ≡ (err e, fenced))
save-fenced_example =
    save-fenced toy calm fenced
      (record {
        profile = "w2-set-v1";
        epoch = 2;
        index_schema_version = 7;
        activated_at = 7;
        claimed_at = 7;
      })
      ("2", refl, refl) (λ h. omega (arith, h)) (λ h. omega (arith, h))

claim-fences_others_example :
    (e : Error) × (writes_file e ≡ false)
    × (save toy calm
          (record { store = fenced.store; disk = (ensure_writer toy calm unclaimed).1.disk })
        ≡ (
          err e,
          record { store = fenced.store; disk = (ensure_writer toy calm unclaimed).1.disk },
        ))
unfolding ensure_writer read_fence unsupported claim_epoch write_fence set_epoch next_fence load
    load_content
claim-fences_others_example =
    claim-fences_others toy calm calm unclaimed
      (record {
        profile = "w2-set-v1";
        epoch = 1;
        index_schema_version = 7;
        activated_at = 7;
        claimed_at = 7;
      })
      fenced.store refl ("1", refl, refl) refl (λ h. omega (arith, h)) refl refl
