-- ===== src/Index/Save/Outcome.antt =====
-- What `save` can do, on every branch: refuse and change nothing, reread a file that moved, fail
-- before the rename, or replace the file by the index in memory.
use node_vault.Base.{
  ◌≡◌, refl, ◌∙◌, ◌⊎◌, inl, inr, String, true, false, Option, none, some, Bool-cases, Option-cases,
  ltb,
}
use node_vault.Index.Schema.{IndexFile, schema_version, empty_index}
use node_vault.Index.Errors.{
  Error, Result, ok, err, persisted_not_durable, io_failure, parse_failure, newer_schema, reloaded,
}
use node_vault.Index.Disk.{
  Codec, Store, World, PersistStep, Env, generation_absent, load, load_content, persist_locked,
  lock_writer, moved, check_generation, with_idx, stops_before_rename, stops_after_rename,
}
use node_vault.Index.Save.{persist_or_reload, save, check_epoch}
use node_vault.Index.Save.Quiet.{
  changes_memory, reaches_file, QuietAt, gives, fails, check_epoch-QuietAt,
}

-- The index as `persistLocked` writes it.
abbrev pub stamped : IndexFile → IndexFile
stamped f = record f { schema = schema_version }

-- The world after the file is replaced by the index in memory.
abbrev pub persisted : Codec → World → World
persisted c w = record w {
  store = record w.store {
    idx = stamped w.store.idx;
    generation = c.digest (c.encode_index (stamped w.store.idx));
  };
  disk = record w.disk { index = some (c.encode_index (stamped w.store.idx)) };
}

-- The Store's memory is what this content of the file holds (`none`: there is no file).
abbrev pub InSync : Codec → Store → Option String → Type 0
InSync c s none = (s.idx ≡ empty_index) × (s.generation ≡ generation_absent)
InSync c s (some bytes) = (c.decode_index bytes ≡ some s.idx) × (s.generation ≡ c.digest bytes)

-- The ways in which `save` can end.
pub data SaveOutcome (c : Codec) (env : Env) (w : World) : Type 0 where
  refused : (e : Error) → changes_memory e ≡ false → save c env w ≡ (err e, w) → SaveOutcome c env w
  reread :
      (w' : World)
      → moved c w ≡ true
      → w'.disk ≡ w.disk
      → InSync c w'.store w.disk.index
      → save c env w ≡ (err reloaded, w')
      → SaveOutcome c env w
  kept_old :
      moved c w ≡ false
      → save c env w ≡ (err io_failure, with_idx (stamped w.store.idx) w)
      → SaveOutcome c env w
  written :
      (r : Result (Unit {0}))
      → moved c w ≡ false
      → reaches_file r ≡ true
      → save c env w ≡ (r, persisted c w)
      → SaveOutcome c env w

-- A reread either fails and changes nothing, or gives the Store what the file holds.
pub data LoadOutcome (c : Codec) (file : Option String) (w : World) (r : Result (Unit {0}) × World)
    : Type 0 where
  unread : (e : Error) → changes_memory e ≡ false → r ≡ (err e, w) → LoadOutcome c file w r
  loaded :
      (w' : World)
      → w'.disk ≡ w.disk
      → InSync c w'.store file
      → r ≡ (ok tt, w')
      → LoadOutcome c file w r

load_content-cases :
    (c : Codec) (file : Option String) (w : World) → LoadOutcome c file w (load_content c file w)
unfolding load_content
load_content-cases c none w = loaded _ refl (refl, refl) refl
load_content-cases c (some b) w = elim (Option-cases (c.decode_index b)) [
  | inl h ↦ unread parse_failure refl (rw (h, load_content))
  | inr (f, h) ↦ elim (Bool-cases (ltb schema_version f.schema)) [
    | inl k ↦ unread newer_schema refl (rw (h, load_content, k))
    | inr k ↦
        loaded (record w { store = record w.store { idx = f; generation = c.digest b } }) refl
          (h, refl) (rw (h, load_content, k))
  ]
]

pub load-cases : (c : Codec) (env : Env) (w : World) → LoadOutcome c w.disk.index w (load c env w)
unfolding load
load-cases c env w = elim (Bool-cases env.load_read_fails) [
  | inl h ↦ unread io_failure refl (rw h)
  | inr h ↦ rw h (load_content-cases c w.disk.index w)
]

pub persist-cases :
    (c : Codec) (fault : Option PersistStep) (w : World)
    → (persist_locked c fault w ≡ (err io_failure, with_idx (stamped w.store.idx) w))
      ⊎ ((r : Result (Unit {0})) × (reaches_file r ≡ true)
          × (persist_locked c fault w ≡ (r, persisted c w)))
unfolding persist_locked
persist-cases c fault w = elim (Bool-cases (stops_before_rename fault)) [
  | inl h ↦ inl (rw h)
  | inr h ↦ elim (Bool-cases (stops_after_rename fault)) [
    | inl k ↦ inr (err persisted_not_durable, refl, simp (h, k))
    | inr k ↦ inr (ok tt, refl, simp (h, k))
  ]
]

persist_or_reload-cases :
    (c : Codec) (env : Env) (w : World)
    → (save c env w ≡ persist_or_reload c env (moved c w) w)
    → SaveOutcome c env w
unfolding persist_or_reload
persist_or_reload-cases c env w e = elim (Bool-cases (moved c w)) [
  | inl h ↦ reloads h (load-cases c env w)
  | inr h ↦ elim (persist-cases c env.persist_fault w) [
    | inl k ↦ kept_old h (e ∙ rw (h, k))
    | inr (r, n, k) ↦ written r h n (e ∙ rw (h, k))
  ]
]
  where
    reloads : moved c w ≡ true → LoadOutcome c w.disk.index w (load c env w) → SaveOutcome c env w
    reloads h (unread x n q) = refused x n (e ∙ rw (h, q))
    reloads h (loaded w' d s q) = reread w' h d s (e ∙ rw (h, q))

pub save-cases : (c : Codec) (env : Env) (w : World) → SaveOutcome c env w
unfolding save lock_writer check_generation
save-cases c env w = elim (Bool-cases env.lock_fails) [
  | inl h ↦ refused io_failure refl (rw h)
  | inr h ↦ checked h (check_epoch-QuietAt c env w)
]
  where
    checked : env.lock_fails ≡ false → QuietAt (check_epoch c env) w → SaveOutcome c env w
    checked h (fails x n q) = refused x n (simp (h, q))
    checked h (gives a q) = elim (Bool-cases env.index_read_fails) [
      | inl k ↦ refused io_failure refl (simp (h, q, k))
      | inr k ↦ persist_or_reload-cases c env w (simp (h, q, k))
    ]
