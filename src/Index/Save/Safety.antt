-- ===== src/Index/Save/Safety.antt =====
-- What the index file is protected from: partial writes, stale views and superseded writers.
use node_vault.Base.{◌≡◌, refl, ◌⊎◌, inl, inr, String, true, false, Option, some, arith}
use node_vault.Index.Schema.{IndexFile}
use node_vault.Index.Errors.{Result, ok, err, is_ok, persisted_not_durable}
use node_vault.Index.Disk.{Codec, IndexReadsBack, TellsApart, World, Env, moved}
use node_vault.Index.Save.{save, commit}
use node_vault.Index.Save.Quiet.{reaches_file, unwritten}
use node_vault.Index.Save.Outcome.{
  stamped, InSync, SaveOutcome, refused, reread, kept_old, written, save-cases,
}
use node_vault.Index.Save.Commit.{
  not-moved-InSync, CommitOutcome, refuses, unsaved, saved, commit-cases,
}

-- A Store whose file was rewritten since it last read or wrote it cannot save: the directory stays
-- as it is, the call fails, and memory is left alone or is replaced by what the file holds.
pub save-stale :
    (c : Codec) (env : Env) (w : World)
    → moved c w ≡ true
    → ((save c env w).1.disk ≡ w.disk)
      × (reaches_file (save c env w).0 ≡ false)
      × (((save c env w).1 ≡ w) ⊎ InSync c (save c env w).1.store w.disk.index)
save-stale c env w h = go (save-cases c env w)
  where
    go :
        SaveOutcome c env w
        → ((save c env w).1.disk ≡ w.disk)
          × (reaches_file (save c env w).0 ≡ false)
          × (((save c env w).1 ≡ w) ⊎ InSync c (save c env w).1.store w.disk.index)
    go (refused e n q) = rw q (refl, unwritten e n, inl refl)
    go (reread w' m d s q) = rw q (d, refl, inr s)
    go (kept_old m q) = cc
    go (written r m n q) = cc

-- Any write of the Store (validate, change, save) either leaves the index file as it was and does
-- not claim success, or replaces it by the encoding of exactly the changed index, stamped with the
-- schema version, and says so (success, or the error of a rename that may not be durable).
pub commit-atomic :
    {A : Type 0} (c : Codec) (env : Env) (f : IndexFile → Result (A × IndexFile)) (w : World)
    → (((commit c env f w).1.disk ≡ w.disk) × (is_ok (commit c env f w).0 ≡ false))
      ⊎ ((a : A) × (idx : IndexFile) × (f w.store.idx ≡ ok (a, idx))
          × ((commit c env f w).1.disk.index ≡ some (c.encode_index (stamped idx)))
          × ((commit c env f w).1.store.idx ≡ stamped idx)
          × (((commit c env f w).0 ≡ ok a) ⊎ ((commit c env f w).0 ≡ err persisted_not_durable)))
commit-atomic {A} c env f w = go (commit-cases c env f w)
  where
    go :
        CommitOutcome c f w (commit c env f w)
        → (((commit c env f w).1.disk ≡ w.disk) × (is_ok (commit c env f w).0 ≡ false))
          ⊎ ((a : A) × (idx : IndexFile) × (f w.store.idx ≡ ok (a, idx))
              × ((commit c env f w).1.disk.index ≡ some (c.encode_index (stamped idx)))
              × ((commit c env f w).1.store.idx ≡ stamped idx)
              × (((commit c env f w).0 ≡ ok a)
                  ⊎ ((commit c env f w).0 ≡ err persisted_not_durable)))
    go (refuses e k q) = inl (rw q refl, rw q refl)
    go (unsaved a idx e k n q d) = inl (d, rw q)
    go (saved a idx k m n q) = inr (a, idx, k, rw q, rw q, n)

-- No lost update: take a Store whose memory came from some content of the file, which its digest
-- tells apart from the present one, and a codec that reads the new index back. If a write of the
-- Store succeeds, it was computed from what the file holds at that moment, and the file holds the
-- changed index after it, with the Store in step with it.
pub commit-no_lost_update :
    {A : Type 0} (c : Codec) (env : Env) (f : IndexFile → Result (A × IndexFile)) (w : World)
    (a : A) (file : Option String)
    → InSync c w.store file
    → TellsApart c file w.disk.index
    → ((idx : IndexFile) → f w.store.idx ≡ ok (a, idx) → IndexReadsBack c (stamped idx))
    → (commit c env f w).0 ≡ ok a
    → InSync c w.store w.disk.index
      × ((idx : IndexFile) × (f w.store.idx ≡ ok (a, idx))
          × ((commit c env f w).1.store.idx ≡ stamped idx)
          × InSync c (commit c env f w).1.store (commit c env f w).1.disk.index)
commit-no_lost_update {A} c env f w a file k t back h = go (commit-cases c env f w)
  where
    returned :
        {x : A} {idx : IndexFile}
        → f w.store.idx ≡ ok (x, idx)
        → ((commit c env f w).0 ≡ ok x) ⊎ ((commit c env f w).0 ≡ err persisted_not_durable)
        → f w.store.idx ≡ ok (a, idx)
    returned k n = ground arith

    go :
        CommitOutcome c f w (commit c env f w)
        → InSync c w.store w.disk.index
          × ((idx : IndexFile) × (f w.store.idx ≡ ok (a, idx))
              × ((commit c env f w).1.store.idx ≡ stamped idx)
              × InSync c (commit c env f w).1.store (commit c env f w).1.disk.index)
    go (refuses e j q) = cc
    go (unsaved b idx e j n q d) = cc
    go (saved x idx j m n q) =
        let result : f w.store.idx ≡ ok (a, idx) = returned j n in
        (not-moved-InSync c w file t k m, (idx, result, rw q, rw q (back idx result, refl)))
