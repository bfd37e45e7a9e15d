-- ===== src/Index/Entries.antt =====
-- pkg/index/store.go, the artifact entries: Append, the lookups and listings, and the writes of the
-- two state axes. Each write is a change of the index file, which `commit` saves.
pub mod Rank
pub mod Calls
pub mod Axes
pub mod Keys
mod Examples
use node_vault.Base.{
  ℕ, Time, String, Bool, true, false, not, ◌&&◌, Option, none, some, List, [], ◌∷◌, ◌==◌, is_empty,
  or_now, find_first, keep, if◌then◌else◌,
}
use node_vault.Index.Schema.{
  IndexFile, Entry, ToolProfileReferrer, LifecyclePhase, IntegrityHealth, phase_eq, health_eq,
  is_gc_candidate,
}
use node_vault.Index.Errors.{
  Result, ok, err, ◌>>=◌, entry_exists, not_found, invalid_lifecycle_transition,
}
use node_vault.Index.Sections.{append_new, update_first, or_not_found}
use node_vault.Index.Disk.{Codec, Env, M}
use node_vault.Index.Save.{commit}
use Rank.{rank_tool_profile_referrers, top_digest}

abbrev pub has_cas : String → Entry → Bool
has_cas cas e = e.cas_hash == cas

-- What `Append` fills in.
abbrev pub dated : Time → Entry → Entry
dated now e = record e {
  registered_at = or_now now e.registered_at;
  lifecycle_updated_at = or_now now e.lifecycle_updated_at;
  health_checked_at = or_now now e.health_checked_at;
}

abbrev with_entries : IndexFile → List Entry → Result (Unit {0} × IndexFile)
with_entries f es = ok (tt, record f { entries = es })

unfoldable pub append_entry : Time → Entry → IndexFile → Result (Unit {0} × IndexFile)
append_entry now e f = do
  es ← append_new (is_empty e.cas_hash) (has_cas e.cas_hash) entry_exists (dated now e) f.entries
  with_entries f es

unfoldable pub get_by_cas_hash : String → IndexFile → Result Entry
get_by_cas_hash cas f = or_not_found (find_first (has_cas cas) f.entries)

unfoldable pub get_by_image_digest : String → IndexFile → Result Entry
get_by_image_digest digest f = or_not_found (find_first (λ e. e.image_digest == digest) f.entries)

abbrev pub is_active : Entry → Bool
is_active e = phase_eq e.lifecycle_phase LifecyclePhase.active

unfoldable pub list_by_stable_ref : String → IndexFile → List Entry
list_by_stable_ref ref f = keep (λ e. e.stable_ref == ref) f.entries

unfoldable pub list_active : IndexFile → List Entry
list_active f = keep is_active f.entries

unfoldable pub list_active_by_stable_ref : String → IndexFile → List Entry
list_active_by_stable_ref ref f = keep (λ e. e.stable_ref == ref && is_active e) f.entries

-- `validLifecycleTransitions`, as a test for an edge.
unfoldable pub valid_lifecycle_transition : LifecyclePhase → LifecyclePhase → Bool
valid_lifecycle_transition LifecyclePhase.pending LifecyclePhase.active = true
valid_lifecycle_transition LifecyclePhase.active LifecyclePhase.retracted = true
valid_lifecycle_transition LifecyclePhase.retracted LifecyclePhase.active = true
valid_lifecycle_transition LifecyclePhase.retracted LifecyclePhase.deleted = true
valid_lifecycle_transition _ _ = false

unfoldable pub move_phase : Time → LifecyclePhase → Entry → Result Entry
move_phase now phase e =
    if valid_lifecycle_transition e.lifecycle_phase phase
    then ok (record e { lifecycle_phase = phase; lifecycle_updated_at = now })
    else err invalid_lifecycle_transition

-- A change of the entry that `findIndex` finds.
unfoldable pub update_entry :
    String → (Entry → Result Entry) → IndexFile → Result (Unit {0} × IndexFile)
update_entry cas g f = do es ← update_first (has_cas cas) g f.entries; with_entries f es

unfoldable pub set_lifecycle_phase :
    Time → String → LifecyclePhase → IndexFile → Result (Unit {0} × IndexFile)
set_lifecycle_phase now cas phase = update_entry cas (move_phase now phase)

unfoldable pub set_spec_referrer_digest :
    String → String → IndexFile → Result (Unit {0} × IndexFile)
set_spec_referrer_digest cas digest =
    update_entry cas (λ e. ok (record e { spec_referrer_digest = digest }))

abbrev pub with_health : Time → IntegrityHealth → Entry → Entry
with_health now health e = record e { integrity_health = health; health_checked_at = now }

unfoldable pub set_integrity_health :
    Time → String → IntegrityHealth → IndexFile → Result (Unit {0} × IndexFile)
set_integrity_health now cas health = update_entry cas (λ e. ok (with_health now health e))

-- The swap is skipped, and says so, when the health is no longer the expected one.
unfoldable pub compare_and_set_integrity_health :
    Time → String → IntegrityHealth → IntegrityHealth → IndexFile → Result (Bool × IndexFile)
compare_and_set_integrity_health now cas expected new f = do
  e ← or_not_found (find_first (has_cas cas) f.entries)
  (if health_eq e.integrity_health expected
      then (set_integrity_health now cas new f >>= λ r. ok (true, r.1))
      else ok (false, f))

-- The entry with one more referrer, the whole history ranked again.
unfoldable pub with_referrer : Time → ToolProfileReferrer → Entry → Entry
with_referrer now ref e =
    let refs = rank_tool_profile_referrers now e.observed_profile_referrers ref in
    record e {
      observed_profile_referrers = refs;
      observed_profile_digest = top_digest e.observed_profile_digest refs;
    }

unfoldable pub record_tool_profile_referrer :
    Time → String → ToolProfileReferrer → IndexFile → Result (Unit {0} × IndexFile)
record_tool_profile_referrer now cas ref = update_entry cas (λ e. ok (with_referrer now ref e))

unfoldable pub list_tool_profile_gc_candidates :
    String → IndexFile → Result (List ToolProfileReferrer)
list_tool_profile_gc_candidates cas f = do
  e ← get_by_cas_hash cas f
  ok (keep (λ r. is_gc_candidate r.lifecycle_status) e.observed_profile_referrers)

-- The writes, saved.
pub append : Codec → Env → Entry → M (Unit {0})
append c env e = commit c env (append_entry env.now e)
