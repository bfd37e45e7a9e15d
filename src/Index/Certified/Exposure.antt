-- ===== src/Index/Certified/Exposure.antt =====
-- What the catalog shows of a tool: nothing unless an Active entry backs it.
use node_vault.Base.{
  Time, ◌≡◌, refl, ◌≢◌, inl, inr, String, Bool, true, false, ◌&&◌, Option, none, some, List, [],
  ◌∷◌, arith, ◌==◌, eq_iff, eq_refl, find_first, keep, modify_first, if◌then◌else◌, Bool-cases, All,
}
use node_vault.Index.Schema.{
  IndexFile, Entry, ToolFunctionCatalogEntry, PromotionStatus, promotion_filter, LifecyclePhase,
  phase_eq,
}
use node_vault.Index.Errors.{Result, ok, err, is_ok, not_found}
use node_vault.Index.Sections.{or_not_found, found, Distinct, update_first, update_first-ok}
use node_vault.Index.Entries.{has_cas, is_active, move_phase, update_entry, set_lifecycle_phase}
use node_vault.Index.Entries.Keys.{HasKeys, same_cas}
use node_vault.Index.Certified.{
  active_hashes, has_catalog_cas, list_tool_function_catalog_entries,
  list_active_tool_function_catalog_entries, get_active_tool_function_catalog_entry,
}

-- Some Active entry has the hash, as the read by hash looks for it.
abbrev pub is_backed : String → List Entry → Bool
is_backed cas es = found (find_first (λ e. has_cas cas e && is_active e) es)

-- The set that the listing builds has the same members.
active_hashes-is_backed :
    (cas : String) (es : List Entry)
    → found (find_first (λ h. h == cas) (active_hashes es)) ≡ is_backed cas es
unfolding active_hashes find_first keep
active_hashes-is_backed cas [] = refl
active_hashes-is_backed cas (e ∷ es) = ground (arith, active_hashes-is_backed cas es)

keep-both :
    {A : Type 0} (a s p : A → Bool) (xs : List A)
    → All (λ x. a x ≡ s x) xs
    → keep (λ x. a x && p x) xs ≡ keep s (keep p xs)
unfolding keep
keep-both a s p [] h = refl
keep-both a s p (x ∷ xs) h = ground (arith, h.0, keep-both a s p xs h.1)

-- Every element of a list is found by its key.
All-imp :
    {A : Type 0} (P Q : A → Type 0) (xs : List A) → ((x : A) → P x → Q x) → All P xs → All Q xs
All-imp P Q [] h k = tt
All-imp P Q (x ∷ xs) h k = (h x k.0, All-imp P Q xs h k.1)

abbrev IsListed : List ToolFunctionCatalogEntry → ToolFunctionCatalogEntry → Type 0
IsListed es e = found (find_first (has_catalog_cas e.cas_hash) es) ≡ true

All-IsListed : (es : List ToolFunctionCatalogEntry) → All (IsListed es) es
unfolding find_first
All-IsListed [] = tt
All-IsListed (e ∷ es) = (
  simp (eq_refl e.cas_hash),
  All-imp (IsListed es) (IsListed (e ∷ es)) es (λ x h. ground arith) (All-IsListed es),
)

backed-served :
    (f : IndexFile) (e : ToolFunctionCatalogEntry)
    → IsListed f.tool_function_catalog_entries e
    → found (find_first (λ h. h == e.cas_hash) (active_hashes f.entries))
      ≡ is_ok (get_active_tool_function_catalog_entry e.cas_hash f)
unfolding get_active_tool_function_catalog_entry
backed-served f e h = rw (active_hashes-is_backed e.cas_hash f.entries) (
    gate (is_backed e.cas_hash f.entries)
      (find_first (has_catalog_cas e.cas_hash) f.tool_function_catalog_entries) h)
  where
    gate :
        (b : Bool) (o : Option ToolFunctionCatalogEntry)
        → found o ≡ true
        → b ≡ is_ok (if b then or_not_found o else err not_found)
    gate true (some x) k = refl
    gate true none k = cc
    gate false o k = refl

-- The two reads of the catalog that an external client reaches agree: the listing shows exactly the
-- entries of the requested promotion status whose hash the read by hash serves, in the order of the
-- unguarded listing.
pub list_active-get_active :
    (status : PromotionStatus) (f : IndexFile)
    → list_active_tool_function_catalog_entries status f
      ≡ keep
          (λ e. is_ok (get_active_tool_function_catalog_entry e.cas_hash f))
          (list_tool_function_catalog_entries status f)
unfolding list_active_tool_function_catalog_entries list_tool_function_catalog_entries
list_active-get_active status f =
    keep-both (λ e. found (find_first (λ h. h == e.cas_hash) (active_hashes f.entries)))
      (λ e. is_ok (get_active_tool_function_catalog_entry e.cas_hash f))
      (λ e. promotion_filter status e.promotion_status) f.tool_function_catalog_entries
      (All-imp (IsListed f.tool_function_catalog_entries) _ f.tool_function_catalog_entries
        (backed-served f) (All-IsListed f.tool_function_catalog_entries))

found-and :
    (p q : Entry → Bool) (es : List Entry)
    → find_first p es ≡ none
    → found (find_first (λ e. p e && q e) es) ≡ false
unfolding find_first
found-and p q [] h = refl
found-and p q (e ∷ es) h = ground (arith, found-and p q es)

unbacked :
    (cas : String) (y : Entry) (es : List Entry)
    → Distinct same_cas es
    → is_active y ≡ false
    → is_backed cas (modify_first (has_cas cas) (λ _. y) es) ≡ false
unfolding find_first modify_first
unbacked cas y [] d h = refl
unbacked cas y (e ∷ es) (d, ds) h = elim (Bool-cases (has_cas cas e)) [
  | inl k ↦
      let e_is : e.cas_hash ≡ cas = (eq_iff e.cas_hash cas).0 k in
      rw (k, h) (ground (arith, found-and (has_cas cas) is_active es (rw e_is at d)))
  | inr k ↦ ground (arith, unbacked cas y es ds h)
]

moved-phase :
    (now : Time) (cas : String) (phase : LifecyclePhase) (f : IndexFile) (m : Result (List Entry))
    {f' : IndexFile}
    → update_first (has_cas cas) (move_phase now phase) f.entries ≡ m
    → set_lifecycle_phase now cas phase f ≡ ok (tt, f')
    → m ≡ ok f'.entries
unfolding set_lifecycle_phase update_entry
moved-phase now cas phase f (ok es) e q = ground (e, arith)
moved-phase now cas phase f (err z) e q = ground (e, arith)

move_phase-phase :
    (now : Time) (phase : LifecyclePhase) (x y : Entry)
    → move_phase now phase x ≡ ok y
    → y.lifecycle_phase ≡ phase
unfolding move_phase
move_phase-phase now phase x y h = ground arith

served-backed :
    (cas : String) (f : IndexFile)
    → is_backed cas f.entries ≡ false
    → get_active_tool_function_catalog_entry cas f ≡ err not_found
unfolding get_active_tool_function_catalog_entry
served-backed cas f h = rw h refl

-- Retraction takes a tool out of the catalog at once: when SetLifecyclePhase moves an artifact to any
-- phase but Active, in an index whose entries have distinct keys, the read by hash finds nothing
-- for it, whatever promotion status its catalog entry keeps.
pub set_lifecycle_phase-get_active :
    (now : Time) (cas : String) (phase : LifecyclePhase) (f : IndexFile) {f' : IndexFile}
    → HasKeys f.entries
    → phase ≢ LifecyclePhase.active
    → set_lifecycle_phase now cas phase f ≡ ok (tt, f')
    → get_active_tool_function_catalog_entry cas f' ≡ err not_found
set_lifecycle_phase-get_active now cas phase f {f'} keys n q =
    let (x, y, found_at, m, es) =
      update_first-ok (has_cas cas) (move_phase now phase) f.entries
        (moved-phase now cas phase f _ refl q) in
    let idle : is_active y ≡ false = rw (move_phase-phase now phase x y m) (not_active phase n) in
    served-backed cas f' (rw es (unbacked cas y f.entries keys.0 idle))
  where
    not_active :
        (p : LifecyclePhase) → p ≢ LifecyclePhase.active → phase_eq p LifecyclePhase.active ≡ false
    not_active p h = ground arith
