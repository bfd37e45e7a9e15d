-- ===== src/Index/Entries/Calls.antt =====
-- Every write of the entries as one call, and what a call does to the entry of a CasHash.
use node_vault.Base.{
  Time, ◌≡◌, refl, ◌⊎◌, inl, inr, String, Bool, true, false, Option, some, List, [], ◌∷◌, arith,
  find_first,
}
use node_vault.Index.Schema.{
  IndexFile, Entry, ArtifactKind, ToolProfileReferrer, LifecyclePhase, IntegrityHealth,
}
use node_vault.Index.Errors.{Result, ok, err, ◌>>=◌}
use node_vault.Index.Sections.{update_first, kept, lookup-update}
use node_vault.Index.Entries.{
  has_cas, append_entry, update_entry, set_lifecycle_phase, set_integrity_health,
  set_spec_referrer_digest, record_tool_profile_referrer, compare_and_set_integrity_health,
  valid_lifecycle_transition,
}

-- The writes of the Store on its entries, with the clock of each.
pub data EntryCall : Type 0 where
  appends : Time → Entry → EntryCall
  sets_phase : Time → String → LifecyclePhase → EntryCall
  sets_health : Time → String → IntegrityHealth → EntryCall
  swaps_health : Time → String → IntegrityHealth → IntegrityHealth → EntryCall
  sets_referrer : String → String → EntryCall
  records_profile : Time → String → ToolProfileReferrer → EntryCall

-- The change of the index; the swap's answer is dropped, since it changes nothing when it is false.
unfoldable pub run_call : EntryCall → IndexFile → Result (Unit {0} × IndexFile)
run_call (appends now e) f = append_entry now e f
run_call (sets_phase now cas phase) f = set_lifecycle_phase now cas phase f
run_call (sets_health now cas health) f = set_integrity_health now cas health f
run_call (swaps_health now cas expected new) f = do
  (swapped, f') ← compare_and_set_integrity_health now cas expected new f
  ok (tt, f')
run_call (sets_referrer cas digest) f = set_spec_referrer_digest cas digest f
run_call (records_profile now cas ref) f = record_tool_profile_referrer now cas ref f

-- A call that is refused leaves the index as it was.
abbrev pub settle : IndexFile → Result (Unit {0} × IndexFile) → IndexFile
settle f (ok (_, f')) = f'
settle f (err e) = f

unfoldable pub run_calls : List EntryCall → IndexFile → IndexFile
run_calls [] f = f
run_calls (c ∷ cs) f = run_calls cs (settle f (run_call c f))

abbrev pub entry_at : String → IndexFile → Option Entry
entry_at cas f = find_first (has_cas cas) f.entries

pub entries-update_entry :
    (k : String) (g : Entry → Result Entry) (f : IndexFile)
    → (settle f (update_entry k g f)).entries
      ≡ kept f.entries (update_first (has_cas k) g f.entries)
unfolding update_entry
entries-update_entry k g f = ground arith

-- What no write of the Store changes in a registered entry.
abbrev pub identity :
    Entry → String × ArtifactKind × String × String × String × String × String × Time
identity e = (
  e.cas_hash, e.artifact_kind, e.stable_ref, e.tool_name, e.version, e.image_ref, e.image_digest,
  e.registered_at,
)

abbrev pub is_health_call : EntryCall → Bool
is_health_call (sets_health _ _ _) = true
is_health_call (swaps_health _ _ _ _) = true
is_health_call _ = false

-- How a call may change an entry: the identity stays; the phase changes along an allowed edge, by
-- a phase call for this CasHash, which leaves the health; the health changes by a health call,
-- which leaves the phase.
pub record Moves (c : EntryCall) (cas : String) (e e' : Entry) : Type 0 where
  pub same_identity : identity e' ≡ identity e
  pub phase_axis :
      (e'.lifecycle_phase ≡ e.lifecycle_phase)
      ⊎ ((valid_lifecycle_transition e.lifecycle_phase e'.lifecycle_phase ≡ true)
          × (e'.integrity_health ≡ e.integrity_health)
          × ((now : Time) × (c ≡ sets_phase now cas e'.lifecycle_phase)))
  pub health_axis :
      (e'.integrity_health ≡ e.integrity_health)
      ⊎ ((e'.lifecycle_phase ≡ e.lifecycle_phase) × (is_health_call c ≡ true))

pub Moves-refl : (c : EntryCall) (cas : String) (e : Entry) → Moves c cas e e
Moves-refl c cas e = record { same_identity = refl; phase_axis = inl refl; health_axis = inl refl }

abbrev pub Moved : EntryCall → String → Entry → IndexFile → Type 0
Moved c cas e f = (e' : Entry) × (entry_at cas f ≡ some e') × Moves c cas e e'

-- A call that is an update of one entry.
pub update-Moved :
    (c : EntryCall) (k cas : String) (g : Entry → Result Entry) (f : IndexFile) (e : Entry)
    → ((x y : Entry) → g x ≡ ok y → y.cas_hash ≡ x.cas_hash)
    → ((y : Entry) → k ≡ cas → g e ≡ ok y → Moves c cas e y)
    → entry_at cas f ≡ some e
    → Moved c cas e (settle f (update_entry k g f))
update-Moved c k cas g f e keeps moves h =
    rw (entries-update_entry k g f)
      (go (lookup-update (λ x. x.cas_hash) k cas g f.entries e keeps h))
  where
    seen : List Entry
    seen = kept f.entries (update_first (has_cas k) g f.entries)

    go :
        (find_first (has_cas cas) seen ≡ some e)
          ⊎ ((e' : Entry) × (k ≡ cas) × (g e ≡ ok e') × (find_first (has_cas cas) seen ≡ some e'))
        → (e' : Entry) × (find_first (has_cas cas) seen ≡ some e') × Moves c cas e e'
    go (inl q) = (e, q, Moves-refl c cas e)
    go (inr (e', here, q, l)) = (e', l, moves e' here q)
