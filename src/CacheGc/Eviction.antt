-- ===== src/CacheGc/Eviction.antt =====
-- pkg/cachegc/gc.go: how far a pass goes, and what it removes.
use node_vault.Base.{
  ℕ, ◌+◌, ◌*◌, ◌/◌, ◌≤◌, ◌<◌, ◌≡◌, refl, ap, ◌⊎◌, pos, inl, inr, String, Bool, false, List, [], ◌∷◌,
  ◌++◌, ◌||◌, All, leb, ltb, arith, Bool-cases, is_empty, is_zero,
}
use node_vault.CacheGc.{CacheEntry, Pass, evict, run_once, place, oldest_first, target_bytes, mib}
use node_vault.Base.Int64.{quotient, int64-small}

-- The bytes of a list of entries.
abbrev pub sum : List CacheEntry → ℕ
sum [] = 0
sum (e ∷ es) = e.size_bytes + sum es

-- Every entry is at least as old as the ones after it.
abbrev pub NotNewer : CacheEntry → List CacheEntry → Type 0
NotNewer e es = All (λ x. e.mod_time ≤ x.mod_time) es

abbrev pub IsByAge : List CacheEntry → Type 0
IsByAge [] = Unit
IsByAge (e ∷ es) = NotNewer e es × IsByAge es

-- Before each of the entries, what was freed is not enough.
abbrev pub IsNeeded : ℕ → ℕ → ℕ → List CacheEntry → Type 0
IsNeeded target total freed [] = Unit
IsNeeded target total freed (e ∷ es) =
    (target + freed < total) × IsNeeded target total (freed + e.size_bytes) es

-- The loop removes a front part of the list, frees enough or has nothing left, and needs each removal.
abbrev pub Evicted : ℕ → ℕ → ℕ → List CacheEntry → Pass → Type 0
Evicted target total freed es p =
    (p.evicted ++ p.left ≡ es)
    × ((p.left ≡ []) ⊎ (total ≤ target + freed + sum p.evicted))
    × IsNeeded target total freed p.evicted

evict_lem :
    (fails : String → Bool) (target total freed : ℕ) (es : List CacheEntry)
    → ((s : String) → fails s ≡ false)
    → Evicted target total freed es (evict fails (pos target) total freed es)
unfolding evict
evict_lem fails target total freed [] n = (refl, inl refl, tt)
evict_lem fails target total freed (e ∷ es) n = elim (Bool-cases (leb total (target + freed))) [
  | inl k ↦ rw k (refl, inr (ground (k, arith)), tt)
  | inr k ↦
      rw (k, n e.path)
        (step (evict fails (pos target) total (freed + e.size_bytes) es)
          (evict_lem fails target total (freed + e.size_bytes) es n) (ground (k, arith)))
]
  where
    step :
        (p : Pass)
        → Evicted target total (freed + e.size_bytes) es p
        → target + freed < total
        → (e ∷ (p.evicted ++ p.left) ≡ e ∷ es)
          × ((p.left ≡ []) ⊎ (total ≤ target + freed + (e.size_bytes + sum p.evicted)))
          × ((target + freed < total) × IsNeeded target total (freed + e.size_bytes) p.evicted)
    step p h l = (ap (λ x. e ∷ x) h.0, enough h.1, (l, h.2))
      where
        enough :
            (p.left ≡ []) ⊎ (total ≤ target + (freed + e.size_bytes) + sum p.evicted)
            → (p.left ≡ []) ⊎ (total ≤ target + freed + (e.size_bytes + sum p.evicted))
        enough (inl g) = inl g
        enough (inr g) = inr (omega arith)

NotNewer-place :
    (x e : CacheEntry) (es : List CacheEntry)
    → x.mod_time ≤ e.mod_time
    → NotNewer x es
    → NotNewer x (place e es)
unfolding place
NotNewer-place x e [] h k = (h, tt)
NotNewer-place x e (y ∷ ys) h k = elim (Bool-cases (ltb y.mod_time e.mod_time)) [
  | inl b ↦ rw b (k.0, NotNewer-place x e ys h k.1)
  | inr b ↦ rw b (h, k)
]

older :
    (x y : CacheEntry) (es : List CacheEntry)
    → x.mod_time ≤ y.mod_time
    → NotNewer y es
    → NotNewer x es
older x y [] h k = tt
older x y (e ∷ es) h k = (omega arith, older x y es h k.1)

place-IsByAge : (e : CacheEntry) (es : List CacheEntry) → IsByAge es → IsByAge (place e es)
unfolding place
place-IsByAge e [] h = (tt, tt)
place-IsByAge e (x ∷ xs) h = elim (Bool-cases (ltb x.mod_time e.mod_time)) [
  | inl b ↦ rw b (NotNewer-place x e xs (ground (b, arith)) h.0, place-IsByAge e xs h.1)
  | inr b ↦
      let first : e.mod_time ≤ x.mod_time = ground (b, arith) in
      rw b ((first, older e x xs first h.0), h)
]

oldest_first-IsByAge : (es : List CacheEntry) → IsByAge (oldest_first es)
unfolding oldest_first
oldest_first-IsByAge [] = tt
oldest_first-IsByAge (e ∷ es) = place-IsByAge e (oldest_first es) (oldest_first-IsByAge es)

-- 80 % of the watermark, in bytes.
abbrev pub goal : ℕ → ℕ
goal watermark_mib = watermark_mib * mib * 80 / 100

target_bytes-goal :
    (watermark : ℕ) → watermark < 109951162778 → target_bytes watermark ≡ pos (goal watermark)
unfolding target_bytes
target_bytes-goal watermark h =
    ap (λ x. quotient x 100) (int64-small (watermark * mib * 80) (omega arith))

-- A pass whose directory is set, over a cache whose usage in whole MiB is above a watermark below
-- 109951162778 MiB, and in which every removal succeeds, removes the entries from the oldest on. It
-- stops where the bytes used, less those it removed, are less than one MiB above 80 % of the
-- watermark, or it empties the directory; and each removal was made while the usage in whole MiB,
-- less what had been removed by then, was above 80 % of the watermark.
pub run_once-evicts :
    (fails : String → Bool) (dir : String) (watermark used : ℕ) (entries : List CacheEntry)
    → ((s : String) → fails s ≡ false)
    → is_empty dir ≡ false
    → 0 < watermark
    → watermark < 109951162778
    → watermark < used / mib
    → IsByAge (oldest_first entries)
      × ((run_once fails dir watermark used entries).evicted
            ++ (run_once fails dir watermark used entries).left
          ≡ oldest_first entries)
      × (((run_once fails dir watermark used entries).left ≡ [])
          ⊎ (used < goal watermark + mib + sum (run_once fails dir watermark used entries).evicted))
      × IsNeeded
          (goal watermark)
          (used / mib * mib)
          0
          (run_once fails dir watermark used entries).evicted
unfolding run_once
run_once-evicts fails dir watermark used entries n d w b u =
    rw
      (
        guards (is_empty dir) (is_zero watermark) d (ground arith),
        over_watermark,
        target_bytes-goal watermark b,
      )
      (in_bytes _ (evict_lem fails (goal watermark) (used / mib * mib) 0 (oldest_first entries) n))
  where
    guards : (a b : Bool) → a ≡ false → b ≡ false → (a || b) ≡ false
    guards a b h k = ground (h, k, arith)

    over_watermark : leb (used / mib) watermark ≡ false
    over_watermark = ground (u, arith)

    enough :
        (p : Pass)
        → (p.left ≡ []) ⊎ (used / mib * mib ≤ goal watermark + 0 + sum p.evicted)
        → (p.left ≡ []) ⊎ (used < goal watermark + mib + sum p.evicted)
    enough p (inl g) = inl g
    enough p (inr g) = inr (omega arith)

    in_bytes :
        (p : Pass)
        → Evicted (goal watermark) (used / mib * mib) 0 (oldest_first entries) p
        → IsByAge (oldest_first entries)
          × (p.evicted ++ p.left ≡ oldest_first entries)
          × ((p.left ≡ []) ⊎ (used < goal watermark + mib + sum p.evicted))
          × IsNeeded (goal watermark) (used / mib * mib) 0 p.evicted
    in_bytes p h = (oldest_first-IsByAge entries, h.0, enough p h.1, h.2)
