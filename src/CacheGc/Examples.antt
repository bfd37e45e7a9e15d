-- ===== src/CacheGc/Examples.antt =====
-- A pass over three entries of one MiB each, two of which must go.
use node_vault.Base.{◌≡◌, refl, false, String, Time, List, [], ◌∷◌, ◌++◌, ◌+◌, ◌<◌, ◌⊎◌, arith}
use node_vault.CacheGc.{
  CacheEntry, Pass, run_once, oldest_first, place, target_bytes, reached, evict, mib,
}
use node_vault.CacheGc.Eviction.{IsByAge, IsNeeded, goal, sum, run_once-evicts}

abbrev cached : String → Time → CacheEntry
cached name time = record { path = name; size_bytes = mib; mod_time = time }

abbrev cache : List CacheEntry
cache = cached "numpy" 3 ∷ (cached "perl" 1 ∷ (cached "samtools" 2 ∷ []))

abbrev after : Pass
after = run_once (λ s. false) "/cache" 2 3145728 cache

run_once-evicts_example :
    IsByAge (oldest_first cache)
    × (after.evicted ++ after.left ≡ oldest_first cache)
    × ((after.left ≡ []) ⊎ (3145728 < goal 2 + mib + sum after.evicted))
    × IsNeeded (goal 2) 3145728 0 after.evicted
run_once-evicts_example =
    run_once-evicts (λ s. false) "/cache" 2 3145728 cache (λ s. refl) refl (omega arith)
      (omega arith) (omega arith)

-- 80 % of two MiB leaves one entry.
what_goes : after.evicted ≡ cached "perl" 1 ∷ (cached "samtools" 2 ∷ [])
unfolding run_once oldest_first place reached target_bytes evict
what_goes = refl

-- The pass stops at a remainder above the watermark: the sizes count in whole MiB.
abbrev uneven : List CacheEntry
uneven =
    record { path = "perl"; size_bytes = 1468007; mod_time = 1 }
    ∷ (record { path = "numpy"; size_bytes = 2621439; mod_time = 2 } ∷ [])

what_stays :
    (run_once (λ s. false) "/cache" 2 4089446 uneven).left
    ≡ record { path = "numpy"; size_bytes = 2621439; mod_time = 2 } ∷ []
unfolding run_once oldest_first place reached target_bytes evict
what_stays = refl
