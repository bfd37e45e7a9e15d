-- ===== src/Index/Entries/Examples.antt =====
-- The theorems on the artifact entries, at concrete indexes.
use mathlib.Core.List.{Perm}
use node_vault.Base.{◌≡◌, refl, some, List, [], ◌∷◌, map, snoc, find_first, eq_iff}
use node_vault.Index.Schema.{
  Entry, LifecyclePhase, IntegrityHealth, ToolProfileReferrer, ReferrerLifecycleStatus,
}
use node_vault.Index.Errors.{ok, err, entry_exists}
use node_vault.Index.Sections.{append_new}
use node_vault.Index.Entries.{append_entry, get_by_cas_hash, dated}
use node_vault.Index.Entries.Rank.{rank_tool_profile_referrers}
use node_vault.Index.Entries.Rank.Laws.{
  facts, IsOrdered, IsMarkedFrom, rank_tool_profile_referrers_lem,
}
use node_vault.Index.Entries.Calls.{
  sets_phase, sets_health, run_call, run_calls, settle, entry_at, Moves, identity,
}
use node_vault.Index.Entries.Axes.{
  PhasePath, run_call-Moves, run_calls-PhasePath, run_calls-deleted,
}
use node_vault.Index.Entries.Keys.{HasKeys, run_call-HasKeys, append_entry-get_by_cas_hash}
use node_vault.Index.Samples.{tool, index_of}

abbrev gone : Entry
gone = record (tool "cas-1") { lifecycle_phase = LifecyclePhase.deleted }

abbrev profile : ToolProfileReferrer
profile = record {
  digest = "sha256:p";
  validation_run_id = "run";
  validation_status = "ok";
  validated_at = 1;
  observed_at = 2;
  rank = 0;
  lifecycle_status = ReferrerLifecycleStatus.unset;
  gc_reason = "";
  marked_at = 0;
}

run_call-Moves_example :
    (e' : Entry) × (entry_at "cas-1" (
        settle
          (index_of (tool "cas-1" ∷ []))
          (run_call (sets_phase 7 "cas-1" LifecyclePhase.retracted) (index_of (tool "cas-1" ∷ []))))
      ≡ some e')
    × Moves (sets_phase 7 "cas-1" LifecyclePhase.retracted) "cas-1" (tool "cas-1") e'
unfolding find_first
run_call-Moves_example =
    run_call-Moves (sets_phase 7 "cas-1" LifecyclePhase.retracted) "cas-1"
      (index_of (tool "cas-1" ∷ [])) (tool "cas-1") refl

run_calls-PhasePath_example :
    (e' : Entry) × (entry_at "cas-1" (
        run_calls
          (sets_phase 7 "cas-1" LifecyclePhase.retracted
            ∷ sets_phase 8 "cas-1" LifecyclePhase.active
            ∷ [])
          (index_of (tool "cas-1" ∷ [])))
      ≡ some e')
    × (identity e' ≡ identity (tool "cas-1"))
    × PhasePath LifecyclePhase.active e'.lifecycle_phase
unfolding find_first
run_calls-PhasePath_example =
    run_calls-PhasePath
      (sets_phase 7 "cas-1" LifecyclePhase.retracted
        ∷ sets_phase 8 "cas-1" LifecyclePhase.active
        ∷ [])
      "cas-1" (index_of (tool "cas-1" ∷ [])) (tool "cas-1") refl

run_calls-deleted_example :
    (e' : Entry) × (entry_at "cas-1"
        (run_calls (sets_phase 7 "cas-1" LifecyclePhase.active ∷ []) (index_of (gone ∷ [])))
      ≡ some e')
    × (e'.lifecycle_phase ≡ LifecyclePhase.deleted)
unfolding find_first
run_calls-deleted_example =
    run_calls-deleted (sets_phase 7 "cas-1" LifecyclePhase.active ∷ []) "cas-1"
      (index_of (gone ∷ [])) gone refl refl

run_call-HasKeys_example :
    HasKeys
      (settle (index_of (tool "cas-1" ∷ tool "cas-2" ∷ [])) (
        run_call
          (sets_health 7 "cas-2" IntegrityHealth.healthy)
          (index_of (tool "cas-1" ∷ tool "cas-2" ∷ [])))).entries
unfolding find_first
run_call-HasKeys_example =
    run_call-HasKeys (sets_health 7 "cas-2" IntegrityHealth.healthy)
      (index_of (tool "cas-1" ∷ tool "cas-2" ∷ [])) ((refl, (refl, tt)), (refl, (refl, tt)))

append_entry-get_by_cas_hash_example :
    (get_by_cas_hash "cas-2" (index_of (tool "cas-1" ∷ tool "cas-2" ∷ []))
      ≡ ok (dated 7 (tool "cas-2")))
    × (get_by_cas_hash "cas-1" (index_of (tool "cas-1" ∷ tool "cas-2" ∷ []))
        ≡ get_by_cas_hash "cas-1" (index_of (tool "cas-1" ∷ [])))
    × (append_entry 8 (tool "cas-2") (index_of (tool "cas-1" ∷ tool "cas-2" ∷ []))
        ≡ err entry_exists)
unfolding append_entry append_new find_first
append_entry-get_by_cas_hash_example =
    append_entry-get_by_cas_hash 7 8 (tool "cas-2") (tool "cas-2") (index_of (tool "cas-1" ∷ []))
      (index_of (tool "cas-1" ∷ tool "cas-2" ∷ [])) "cas-1" refl refl
      (λ h. let e = (eq_iff "cas-1" "cas-2").1 h in cc)

rank_tool_profile_referrers_lem_example :
    let ranked : List ToolProfileReferrer =
      rank_tool_profile_referrers 9 (profile ∷ []) (record profile { observed_at = 3 }) in
    Perm (map facts ranked) (map facts (snoc (profile ∷ []) (record profile { observed_at = 3 })))
    × IsOrdered ranked
    × IsMarkedFrom 0 ranked
rank_tool_profile_referrers_lem_example =
    rank_tool_profile_referrers_lem 9 (profile ∷ []) (record profile { observed_at = 3 })
