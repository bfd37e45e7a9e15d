-- ===== src/Reconcile/Health.antt =====
-- pkg/reconcile/reconciler.go: the fast pass, which judges what the registry shows of each artifact,
-- and the slow pass, which tries to pull the healthy ones. A pass writes to the index by the calls of
-- pkg/index, over a snapshot of the entries; a call that fails is logged.
pub mod Verdicts
mod Examples
use node_vault.Base.{
  Time, String, Bool, true, false, not, Option, none, some, List, [], ◌∷◌, ◌++◌, if◌then◌else◌,
}
use node_vault.Index.Schema.{IndexFile, Entry, IntegrityHealth, health_eq}
use node_vault.Index.Errors.{Result, ok, err}
use node_vault.Index.Entries.{get_by_cas_hash}
use node_vault.Index.Entries.Calls.{EntryCall, sets_health, swaps_health, run_calls}

-- `RegistryChecker`: what the registry answers about an entry, `none` for an error.
pub record RegistryChecker : Type 0 where
  pub image_exists : Entry → Option Bool
  pub spec_referrer_witness : Entry → Option Bool
  pub pull_reachable : Entry → Option Bool

-- `judgeHealth`
unfoldable pub judge_health : Bool → Bool → IntegrityHealth
judge_health true true = IntegrityHealth.healthy
judge_health true false = IntegrityHealth.partial
judge_health false false = IntegrityHealth.missing
judge_health false true = IntegrityHealth.orphaned

abbrev pub judged : Option Bool → Option Bool → Option IntegrityHealth
judged none referrer = none
judged (some image) none = none
judged (some image) (some referrer) = some (judge_health image referrer)

-- `reconcileExistence`: the write that it makes, none after an error of the registry.
unfoldable pub reconcile_existence : Time → RegistryChecker → Entry → List EntryCall
unfolding judge_health
reconcile_existence now checker e =
    elim (judged (checker.image_exists e) (checker.spec_referrer_witness e)) [
      | none ↦ []
      | some health ↦ sets_health now e.cas_hash health ∷ []
    ]

abbrev pub is_unreachable : Option Bool → Bool
is_unreachable none = false
is_unreachable (some reached) = not reached

-- `reconcileReachability`: a compare-and-set from the health of the snapshot.
unfoldable pub reconcile_reachability : Time → RegistryChecker → Entry → List EntryCall
reconcile_reachability now checker e =
    if is_unreachable (checker.pull_reachable e)
    then swaps_health now e.cas_hash e.integrity_health IntegrityHealth.unreachable ∷ []
    else []

-- The loops of `FastRun` and `SlowRun` over the snapshot, with a context that is not canceled.
unfoldable pub fast_calls : Time → RegistryChecker → List Entry → List EntryCall
unfolding reconcile_existence
fast_calls now checker [] = []
fast_calls now checker (e ∷ es) = reconcile_existence now checker e ++ fast_calls now checker es

unfoldable pub slow_calls : Time → RegistryChecker → List Entry → List EntryCall
unfolding reconcile_reachability
slow_calls now checker [] = []
slow_calls now checker (e ∷ es) =
    let rest = slow_calls now checker es in
    if health_eq e.integrity_health IntegrityHealth.healthy
    then reconcile_reachability now checker e ++ rest
    else rest

-- `FastRun` and `SlowRun`, from the entries of their snapshot.
unfoldable pub fast_run : Time → RegistryChecker → List Entry → IndexFile → IndexFile
unfolding fast_calls run_calls
fast_run now checker snapshot f = run_calls (fast_calls now checker snapshot) f

unfoldable pub slow_run : Time → RegistryChecker → List Entry → IndexFile → IndexFile
unfolding slow_calls run_calls
slow_run now checker snapshot f = run_calls (slow_calls now checker snapshot) f

-- `ReconcileOne`
unfoldable pub reconcile_one : Time → RegistryChecker → String → IndexFile → Result IndexFile
unfolding get_by_cas_hash reconcile_existence run_calls
reconcile_one now checker cas f = elim (get_by_cas_hash cas f) [
  | err e ↦ err e
  | ok e ↦ ok (run_calls (reconcile_existence now checker e) f)
]
