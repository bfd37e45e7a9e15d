-- ===== src/Index/Save/Commit.antt =====
-- What a write of the Store (`commit`) comes to, and when a Store is in step with the file.
use node_vault.Base.{◌≡◌, refl, ◌⊎◌, inl, inr, String, false, Option, none, some, arith, eq_iff}
use node_vault.Index.Schema.{IndexFile}
use node_vault.Index.Errors.{Error, Result, ok, err, reloaded, io_failure, persisted_not_durable}
use node_vault.Index.Disk.{
  Codec, TellsApart, Store, World, Env, file_moved, generation_absent, moved, with_idx,
}
use node_vault.Index.Save.{commit}
use node_vault.Index.Save.Quiet.{writes_file, unwritten}
use node_vault.Index.Save.Outcome.{
  stamped, persisted, InSync, SaveOutcome, refused, reread, kept_old, written, save-cases,
}

not-file_moved-InSync :
    (c : Codec) (s : Store) (now old : Option String)
    → TellsApart c old now
    → InSync c s old
    → file_moved c s.generation now ≡ false
    → InSync c s now
unfolding file_moved
not-file_moved-InSync c s none none t k h = k
not-file_moved-InSync c s none (some b) t k h =
    absurd (t (ground (arith, eq_iff s.generation generation_absent)))
not-file_moved-InSync c s (some a) none t k h =
    absurd (t (ground (arith, eq_iff (c.digest a) s.generation)))
not-file_moved-InSync c s (some a) (some b) t k h =
    let same : b ≡ a = t (ground (arith, eq_iff (c.digest a) s.generation)) in rw same at k

-- A Store that sees the generation that it remembers is in step with the file.
pub not-moved-InSync :
    (c : Codec) (w : World) (file : Option String)
    → TellsApart c file w.disk.index
    → InSync c w.store file
    → moved c w ≡ false
    → InSync c w.store w.disk.index
unfolding moved
not-moved-InSync c w file t k h = not-file_moved-InSync c w.store w.disk.index file t k h

-- What a write of the Store can come to.
pub data CommitOutcome {A : Type 0} (c : Codec) (f : IndexFile → Result (A × IndexFile)) (w : World)
    (r : Result A × World) : Type 0 where
  refuses : (e : Error) → f w.store.idx ≡ err e → r ≡ (err e, w) → CommitOutcome c f w r
  unsaved :
      (a : A) (idx : IndexFile) (e : Error)
      → f w.store.idx ≡ ok (a, idx)
      → writes_file e ≡ false
      → r.0 ≡ err e
      → r.1.disk ≡ w.disk
      → CommitOutcome c f w r
  saved :
      (a : A) (idx : IndexFile)
      → f w.store.idx ≡ ok (a, idx)
      → moved c w ≡ false
      → (r.0 ≡ ok a) ⊎ (r.0 ≡ err persisted_not_durable)
      → r.1 ≡ persisted c (with_idx idx w)
      → CommitOutcome c f w r

pub commit-cases :
    {A : Type 0} (c : Codec) (env : Env) (f : IndexFile → Result (A × IndexFile)) (w : World)
    → CommitOutcome c f w (commit c env f w)
unfolding commit moved
commit-cases {A} c env f w = decided (f w.store.idx) refl
  where
    -- The outcome from the whole result, for a save that fails and for one that reaches the file.
    lost :
        (a : A) (idx : IndexFile) (e : Error) (w' : World)
        → f w.store.idx ≡ ok (a, idx)
        → writes_file e ≡ false
        → w'.disk ≡ w.disk
        → commit c env f w ≡ (err e, w')
        → CommitOutcome c f w (commit c env f w)
    lost a idx e w' h n d q = rw q (unsaved a idx e h n refl d)

    reached :
        (a : A) (idx : IndexFile) (r : Result A)
        → f w.store.idx ≡ ok (a, idx)
        → moved c w ≡ false
        → (r ≡ ok a) ⊎ (r ≡ err persisted_not_durable)
        → commit c env f w ≡ (r, persisted c (with_idx idx w))
        → CommitOutcome c f w (commit c env f w)
    reached a idx r h m n q = rw q (saved a idx h m n refl)

    attempt :
        (a : A) (idx : IndexFile)
        → f w.store.idx ≡ ok (a, idx)
        → SaveOutcome c env (with_idx idx w)
        → CommitOutcome c f w (commit c env f w)
    attempt a idx e (refused x n q) =
        lost a idx x (with_idx idx w) e (unwritten x n) refl (rw (e, commit, q))
    attempt a idx e (reread w' m d s q) = lost a idx reloaded w' e refl d (rw (e, commit, q))
    attempt a idx e (kept_old m q) =
        lost a idx io_failure (with_idx (stamped idx) w) e refl refl (rw (e, commit, q))
    attempt a idx e (written (ok _) m n q) = reached a idx (ok a) e m (inl refl) (rw (e, commit, q))
    attempt a idx e (written (err persisted_not_durable) m n q) =
        reached a idx (err persisted_not_durable) e m (inr refl) (rw (e, commit, q))
    attempt a idx e (written (err x) m n q) = cc

    decided :
        (r : Result (A × IndexFile)) → f w.store.idx ≡ r → CommitOutcome c f w (commit c env f w)
    decided (err x) e = refuses x e (rw (e, commit))
    decided (ok (a, idx)) e = attempt a idx e (save-cases c env (with_idx idx w))
