-- ===== src/CacheGc.antt =====
-- pkg/cachegc/gc.go: the eviction of the oldest entries of the package cache. What os.ReadDir and
-- filepath.WalkDir find, and whether os.RemoveAll fails, are parameters; sizes are bytes, and the
-- sizes under the directory add up to an int64. A read of the directory that fails ends the pass
-- before anything is removed, and is left out.
pub mod Eviction
mod Examples
use node_vault.Base.{
  ℕ, suc, ◌+◌, ◌*◌, ◌/◌, ℤ, pos, negsuc, Time, String, Bool, true, false, List, [], ◌∷◌, leb, ltb,
  is_empty, is_zero, if◌then◌else◌, ◌||◌,
}
use node_vault.Base.Int64.{int64, quotient}

-- `entry`
pub record CacheEntry : Type 0 where
  pub path : String
  pub size_bytes : ℕ
  pub mod_time : Time

abbrev pub mib : ℕ
mib = 1048576

-- `sort.Slice` by the time of modification, as an insertion sort.
unfoldable pub place : CacheEntry → List CacheEntry → List CacheEntry
place e [] = e ∷ []
place e (x ∷ xs) =
    let rest = place e xs in if ltb x.mod_time e.mod_time then x ∷ rest else e ∷ (x ∷ xs)

unfoldable pub oldest_first : List CacheEntry → List CacheEntry
oldest_first [] = []
oldest_first (e ∷ es) = place e (oldest_first es)

-- 80 % of the watermark, as long as the products are an int64.
unfoldable pub target_bytes : ℕ → ℤ
unfolding int64 quotient
target_bytes watermark_mib = quotient (int64 (watermark_mib * mib * 80)) 100

-- `total - freed <= target`, on numbers of bytes and an int64.
unfoldable pub reached : ℤ → ℕ → ℕ → Bool
reached (pos target) total freed = leb total (target + freed)
reached (negsuc under) total freed = leb (total + suc under) freed

-- What one pass does: what it removed and what it left, in the order of the loop.
pub record Pass : Type 0 where
  pub evicted : List CacheEntry
  pub left : List CacheEntry

abbrev pub evict_one : CacheEntry → Pass → Pass
evict_one e p = record p { evicted = e ∷ p.evicted }

abbrev pub leave_one : CacheEntry → Pass → Pass
leave_one e p = record p { left = e ∷ p.left }

-- The loop, which ends when the target is reached.
unfoldable pub evict : (String → Bool) → ℤ → ℕ → ℕ → List CacheEntry → Pass
unfolding reached
evict remove_fails target total freed [] = record { evicted = []; left = [] }
evict remove_fails target total freed (e ∷ es) =
    let skipped = evict remove_fails target total freed es in
    let removed = evict remove_fails target total (freed + e.size_bytes) es in
    if reached target total freed
    then record { evicted = []; left = e ∷ es }
    else if remove_fails e.path
    then leave_one e skipped
    else evict_one e removed

-- `RunOnce`, on the bytes that DirUsageMiB counts and the entries of the directory. The watermark is
-- one that is set.
unfoldable pub run_once : (String → Bool) → String → ℕ → ℕ → List CacheEntry → Pass
unfolding evict oldest_first target_bytes
run_once remove_fails dir watermark_mib used_bytes entries =
    if is_empty dir || is_zero watermark_mib
    then record { evicted = []; left = entries }
    else if leb (used_bytes / mib) watermark_mib
    then record { evicted = []; left = entries }
    else evict remove_fails (target_bytes watermark_mib) (used_bytes / mib * mib) 0
        (oldest_first entries)
