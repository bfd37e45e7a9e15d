-- ===== src/Index/Entries/Keys.antt =====
-- The primary key of the entries: registered once, never lost, never shared.
use node_vault.Base.{
  Time, ◌≡◌, ◌≢◌, refl, inl, inr, String, Bool, false, none, some, List, [], ◌∷◌, arith, ◌==◌,
  eq_iff, eq_refl, find_first, modify_first, snoc, find_first-snoc, is_empty, All, All-snoc,
  Bool-cases,
}
use node_vault.Index.Schema.{IndexFile, Entry}
use node_vault.Index.Errors.{ok-injective, Result, ok, err, entry_exists}
use node_vault.Index.Sections.{
  append_new, Distinct, Distinct-snoc, Distinct-modify_first, update_first-cases, UpdateOutcome,
  missing, declined, changed, kept, update_first,
}
use node_vault.Index.Entries.{
  has_cas, dated, append_entry, get_by_cas_hash, move_phase, update_entry, set_lifecycle_phase,
  with_health, set_integrity_health, set_spec_referrer_digest, with_referrer,
  record_tool_profile_referrer,
}
use node_vault.Index.Entries.Calls.{
  EntryCall, appends, sets_phase, sets_health, swaps_health, sets_referrer, records_profile,
  run_call, settle, entries-update_entry,
}
use node_vault.Index.Entries.Axes.{swap-cases, move_phase-ok}

abbrev pub same_cas : Entry → Entry → Bool
same_cas a b = a.cas_hash == b.cas_hash

abbrev HasCas : Entry → Type 0
HasCas e = is_empty e.cas_hash ≡ false

-- Every entry has a CasHash, and no two have the same one.
abbrev pub HasKeys : List Entry → Type 0
HasKeys es = Distinct same_cas es × All (λ e. is_empty e.cas_hash ≡ false) es

pub eq_comm : (s t : String) → (s == t) ≡ (t == s)
eq_comm s t = ground (arith, eq_iff s t, eq_iff t s)

All-modify :
    (P : Entry → Type 0) (p : Entry → Bool) (y : Entry) (es : List Entry)
    → P y
    → All P es
    → All P (modify_first p (λ _. y) es)
unfolding modify_first
All-modify P p y [] h k = tt
All-modify P p y (e ∷ es) h k = elim (Bool-cases (p e)) [
  | inl q ↦ rw q (h, k.1)
  | inr q ↦ rw q (k.0, All-modify P p y es h k.1)
]

All-find :
    (P : Entry → Type 0) (p : Entry → Bool) (es : List Entry) (x : Entry)
    → find_first p es ≡ some x
    → All P es
    → P x
unfolding find_first
All-find P p [] x h k = cc
All-find P p (e ∷ es) x h k = elim (Bool-cases (p e)) [
  | inl q ↦ let e_is : e ≡ x = ground arith in rw e_is at k.0
  | inr q ↦ All-find P p es x (ground arith) k.1
]

update-HasKeys :
    (k : String) (g : Entry → Result Entry) (es : List Entry)
    → ((x y : Entry) → g x ≡ ok y → y.cas_hash ≡ x.cas_hash)
    → HasKeys es
    → HasKeys (kept es (update_first (has_cas k) g es))
update-HasKeys k g es keeps (d, a) = go (update_first-cases (has_cas k) g es)
  where
    go :
        UpdateOutcome (has_cas k) g es (update_first (has_cas k) g es)
        → HasKeys (kept es (update_first (has_cas k) g es))
    go (missing n q) = rw q (d, a)
    go (declined x e n c q) = rw q (d, a)
    go (changed x y n c q) =
        let same : y.cas_hash ≡ x.cas_hash = keeps x y c in
        rw q (
          Distinct-modify_first same_cas (has_cas k) y es x n (λ z. rw same) (λ z. rw same) d,
          All-modify HasCas (has_cas k) y es (rw same (All-find HasCas (has_cas k) es x n a)) a,
        )

update_entry-HasKeys :
    (k : String) (g : Entry → Result Entry) (f : IndexFile)
    → ((x y : Entry) → g x ≡ ok y → y.cas_hash ≡ x.cas_hash)
    → HasKeys f.entries
    → HasKeys (settle f (update_entry k g f)).entries
update_entry-HasKeys k g f keeps h =
    rw (entries-update_entry k g f) (update-HasKeys k g f.entries keeps h)

append_entry-ok :
    (now : Time) (e : Entry) (f : IndexFile) {f' : IndexFile}
    → append_entry now e f ≡ ok (tt, f')
    → (is_empty e.cas_hash ≡ false)
      × (find_first (has_cas e.cas_hash) f.entries ≡ none)
      × (f'.entries ≡ snoc f.entries (dated now e))
unfolding append_entry append_new
append_entry-ok now e f h = ground arith

certain :
    (k : String) (g : Entry → Entry) (f : IndexFile)
    → ((x : Entry) → (g x).cas_hash ≡ x.cas_hash)
    → HasKeys f.entries
    → HasKeys (settle f (update_entry k (λ x. ok (g x)) f)).entries
certain k g f keeps h =
    update_entry-HasKeys k (λ x. ok (g x)) f (λ x y q. rw (ok-injective (g x) y q) at (keeps x)) h

-- Every write of the entries, on whatever branch it ends, keeps every entry with a CasHash of its own.
pub run_call-HasKeys :
    (c : EntryCall) (f : IndexFile) → HasKeys f.entries → HasKeys (settle f (run_call c f)).entries
unfolding run_call set_lifecycle_phase set_integrity_health set_spec_referrer_digest
    record_tool_profile_referrer with_referrer
run_call-HasKeys (appends now e) f h = go (append_entry now e f) refl
  where
    go :
        (r : Result (Unit {0} × IndexFile))
        → append_entry now e f ≡ r
        → HasKeys (settle f r).entries
    go (err z) q = h
    go (ok (_, f')) q =
        let (some_key, fresh, es) = append_entry-ok now e f q in
        rw es (
          Distinct-snoc same_cas f.entries (dated now e) (λ a b. eq_comm a.cas_hash b.cas_hash) h.0
              fresh,
          All-snoc HasCas f.entries (dated now e) h.1 some_key,
        )
run_call-HasKeys (sets_phase now k phase) f h =
    update_entry-HasKeys k (move_phase now phase) f
      (λ x y q. rw ((move_phase-ok now phase x y q).1) refl) h
run_call-HasKeys (sets_health now k value) f h = certain k (with_health now value) f (λ _. refl) h
run_call-HasKeys (swaps_health now k expected new) f h = elim (swap-cases now k expected new f) [
  | inl q ↦ rw q h
  | inr q ↦ rw q (certain k (with_health now new) f (λ _. refl) h)
]
run_call-HasKeys (sets_referrer k digest) f h =
    certain k (λ x. record x { spec_referrer_digest = digest }) f (λ _. refl) h
run_call-HasKeys (records_profile now k ref) f h = certain k (with_referrer now ref) f (λ _. refl) h

append-here :
    (now : Time) (e : Entry) (es : List Entry)
    → find_first (has_cas e.cas_hash) es ≡ none
    → find_first (has_cas e.cas_hash) (snoc es (dated now e)) ≡ some (dated now e)
append-here now e es h =
    rw (find_first-snoc (has_cas e.cas_hash) es (dated now e), h) (simp (eq_refl e.cas_hash))

append-elsewhere :
    (now : Time) (e : Entry) (cas : String) (es : List Entry)
    → cas ≢ e.cas_hash
    → find_first (has_cas cas) (snoc es (dated now e)) ≡ find_first (has_cas cas) es
append-elsewhere now e cas es h =
    ground (arith, find_first-snoc (has_cas cas) es (dated now e), eq_iff e.cas_hash cas)

append_entry-again :
    (now : Time) (e : Entry) (f : IndexFile)
    → is_empty e.cas_hash ≡ false
    → (x : Entry) → find_first (has_cas e.cas_hash) f.entries ≡ some x
    → append_entry now e f ≡ err entry_exists
unfolding append_entry append_new
append_entry-again now e f h x k = simp (h, k)

-- A registration that succeeds is found again under its CasHash, with its dates filled in, and every
-- other lookup answers as before; repeating it is refused with ErrEntryExists.
pub append_entry-get_by_cas_hash :
    (now later : Time) (e again : Entry) (f f' : IndexFile) (cas : String)
    → append_entry now e f ≡ ok (tt, f')
    → again.cas_hash ≡ e.cas_hash
    → cas ≢ e.cas_hash
    → (get_by_cas_hash e.cas_hash f' ≡ ok (dated now e))
      × (get_by_cas_hash cas f' ≡ get_by_cas_hash cas f)
      × (append_entry later again f' ≡ err entry_exists)
unfolding get_by_cas_hash
append_entry-get_by_cas_hash now later e again f f' cas h same other =
    let (some_key, fresh, es) = append_entry-ok now e f h in
    let here : find_first (has_cas e.cas_hash) f'.entries ≡ some (dated now e) =
      rw es (append-here now e f.entries fresh) in
    (
      rw here,
      rw es (rw (append-elsewhere now e cas f.entries other)),
      append_entry-again later again f' (rw same some_key) (dated now e) (rw same here),
    )
