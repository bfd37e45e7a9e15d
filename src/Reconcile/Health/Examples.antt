-- ===== src/Reconcile/Health/Examples.antt =====
-- A slow pass whose snapshot is older than the index.
use node_vault.Base.{refl, false, none, some, [], ◌∷◌, find_first}
use node_vault.Index.Schema.{Entry, IntegrityHealth}
use node_vault.Index.Samples.{tool, index_of}
use node_vault.Reconcile.Health.{RegistryChecker, slow_run}
use node_vault.Reconcile.Health.Verdicts.{Judged, slow_run-Judged}

-- Nothing can be pulled.
abbrev offline : RegistryChecker
offline = record {
  image_exists = λ e. none;
  spec_referrer_witness = λ e. none;
  pull_reachable = λ e. some false;
}

abbrev at_health : IntegrityHealth → Entry
at_health h = record (tool "cas-1") { integrity_health = h }

-- The fast pass found the image missing since the snapshot.
slow_run-Judged_example : Judged "cas-1" (at_health IntegrityHealth.missing) (
    slow_run 9 offline
      (at_health IntegrityHealth.healthy ∷ [])
      (index_of (at_health IntegrityHealth.missing ∷ [])))
unfolding find_first
slow_run-Judged_example =
    slow_run-Judged 9 offline (at_health IntegrityHealth.healthy ∷ [])
      (index_of (at_health IntegrityHealth.missing ∷ [])) "cas-1"
      (at_health IntegrityHealth.missing) refl
