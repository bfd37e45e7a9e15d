-- ===== src/Index/Entries/Axes.antt =====
-- The two state axes of an entry, over one call and over any history of calls.
use node_vault.Base.{
  Time, ◌≡◌, refl, ◌∙◌, ◌⊎◌, inl, inr, String, Bool, true, some, List, [], ◌∷◌, arith, find_first,
  find_first-snoc, Option-cases, Bool-cases,
}
use node_vault.Index.Schema.{IndexFile, Entry, LifecyclePhase, IntegrityHealth, health_eq}
use node_vault.Index.Errors.{ok-injective, Result, ok, err, ◌>>=◌}
use node_vault.Index.Sections.{append_new}
use node_vault.Index.Entries.{
  has_cas, dated, append_entry, move_phase, set_lifecycle_phase, with_health, set_integrity_health,
  set_spec_referrer_digest, with_referrer, record_tool_profile_referrer,
  compare_and_set_integrity_health, valid_lifecycle_transition, update_entry,
}
use node_vault.Index.Entries.Calls.{
  EntryCall, appends, sets_phase, sets_health, swaps_health, sets_referrer, records_profile,
  run_call, run_calls, settle, entry_at, identity, Moves, Moved, Moves-refl, update-Moved,
}

append-Moved :
    (now : Time) (new : Entry) (cas : String) (f : IndexFile) (e : Entry)
    → entry_at cas f ≡ some e
    → Moved (appends now new) cas e (settle f (append_entry now new f))
unfolding append_entry append_new
append-Moved now new cas f e h = (
  e,
  ground (arith, find_first-snoc (has_cas cas) f.entries (dated now new)),
  Moves-refl (appends now new) cas e,
)

pub move_phase-ok :
    (now : Time) (phase : LifecyclePhase) (e y : Entry)
    → move_phase now phase e ≡ ok y
    → (valid_lifecycle_transition e.lifecycle_phase phase ≡ true)
      × (y ≡ record e { lifecycle_phase = phase; lifecycle_updated_at = now })
unfolding move_phase
move_phase-ok now phase e y h = ground arith

phase-Moved :
    (now : Time) (k cas : String) (phase : LifecyclePhase) (f : IndexFile) (e : Entry)
    → entry_at cas f ≡ some e
    → Moved (sets_phase now k phase) cas e (settle f (set_lifecycle_phase now k phase f))
unfolding set_lifecycle_phase
phase-Moved now k cas phase f e h =
    update-Moved (sets_phase now k phase) k cas (move_phase now phase) f e
      (λ x y q. rw ((move_phase-ok now phase x y q).1) refl)
      (λ y here q.
        let (valid, y_is) = move_phase-ok now phase e y q in
        rw (y_is, here)
          (record {
            same_identity = refl;
            phase_axis = inr (valid, refl, (now, refl));
            health_axis = inl refl;
          }))
      h

-- An update that always succeeds: the changes of the entry that are no refusals.
certain-Moved :
    (c : EntryCall) (k cas : String) (g : Entry → Entry) (f : IndexFile) (e : Entry)
    → ((x : Entry) → (g x).cas_hash ≡ x.cas_hash)
    → Moves c cas e (g e)
    → entry_at cas f ≡ some e
    → Moved c cas e (settle f (update_entry k (λ x. ok (g x)) f))
certain-Moved c k cas g f e keeps moves h =
    update-Moved c k cas (λ x. ok (g x)) f e (λ x y q. rw (ok-injective (g x) y q) at (keeps x))
      (λ y here q. rw (ok-injective (g e) y q) at moves) h

pub swap-settled :
    (now : Time) (k : String) (expected new : IntegrityHealth) (f : IndexFile) (x : Entry)
    → find_first (has_cas k) f.entries ≡ some x
    → health_eq x.integrity_health expected ≡ true
    → settle f (run_call (swaps_health now k expected new) f)
      ≡ settle f (update_entry k (λ e. ok (with_health now new e)) f)
unfolding run_call compare_and_set_integrity_health set_integrity_health
swap-settled now k expected new f x n m =
    simp (n, m) (after (update_entry k (λ e. ok (with_health now new e)) f))
  where
    swapped : Result (Unit {0} × IndexFile) → Result (Bool × IndexFile)
    swapped r = r >>= λ p. ok (true, p.1)

    after :
        (r : Result (Unit {0} × IndexFile))
        → settle f (swapped r >>= λ q. ok (tt, q.1)) ≡ settle f r
    after (ok (_, g)) = refl
    after (err z) = refl

-- A swap of the health changes nothing, or is the plain write of the health.
pub swap-cases :
    (now : Time) (k : String) (expected new : IntegrityHealth) (f : IndexFile)
    → (settle f (run_call (swaps_health now k expected new) f) ≡ f)
      ⊎ (settle f (run_call (swaps_health now k expected new) f)
          ≡ settle f (update_entry k (λ e. ok (with_health now new e)) f))
unfolding run_call compare_and_set_integrity_health
swap-cases now k expected new f = elim (Option-cases (find_first (has_cas k) f.entries)) [
  | inl n ↦ inl (simp n)
  | inr (x, n) ↦ elim (Bool-cases (health_eq x.integrity_health expected)) [
    | inl m ↦ inr (swap-settled now k expected new f x n m)
    | inr m ↦ inl (simp (n, m))
  ]
]

swap-Moved :
    (now : Time) (k cas : String) (expected new : IntegrityHealth) (f : IndexFile) (e : Entry)
    → entry_at cas f ≡ some e
    → Moved
        (swaps_health now k expected new)
        cas
        e
        (settle f (run_call (swaps_health now k expected new) f))
swap-Moved now k cas expected new f e h = elim (swap-cases now k expected new f) [
  | inl q ↦ (e, rw q h, Moves-refl (swaps_health now k expected new) cas e)
  | inr q ↦ rw q (
      certain-Moved (swaps_health now k expected new) k cas (with_health now new) f e (λ _. refl)
        (record { same_identity = refl; phase_axis = inl refl; health_axis = inr (refl, refl) }) h)
]

-- One call and one registered entry: the call never removes the entry or changes what it identifies;
-- its lifecycle phase changes only along an allowed edge and only by a phase call for its CasHash,
-- which leaves its health; its health changes only by a health call, which leaves its phase.
pub run_call-Moves :
    (c : EntryCall) (cas : String) (f : IndexFile) (e : Entry)
    → entry_at cas f ≡ some e
    → (e' : Entry) × (entry_at cas (settle f (run_call c f)) ≡ some e') × Moves c cas e e'
unfolding run_call set_integrity_health set_spec_referrer_digest record_tool_profile_referrer
    with_referrer
run_call-Moves (appends now new) cas f e h = append-Moved now new cas f e h
run_call-Moves (sets_phase now k phase) cas f e h = phase-Moved now k cas phase f e h
run_call-Moves (sets_health now k value) cas f e h =
    certain-Moved (sets_health now k value) k cas (with_health now value) f e (λ _. refl)
      (record { same_identity = refl; phase_axis = inl refl; health_axis = inr (refl, refl) }) h
run_call-Moves (swaps_health now k expected new) cas f e h = swap-Moved now k cas expected new f e h
run_call-Moves (sets_referrer k digest) cas f e h =
    certain-Moved (sets_referrer k digest) k cas (λ x. record x { spec_referrer_digest = digest }) f
      e (λ _. refl) (record { same_identity = refl; phase_axis = inl refl; health_axis = inl refl })
      h
run_call-Moves (records_profile now k ref) cas f e h =
    certain-Moved (records_profile now k ref) k cas (with_referrer now ref) f e (λ _. refl)
      (record { same_identity = refl; phase_axis = inl refl; health_axis = inl refl }) h

-- The phases that allowed edges lead to.
pub data PhasePath (p : LifecyclePhase) : LifecyclePhase → Type 0 where
  here : PhasePath p p
  next :
      {q r : LifecyclePhase} → PhasePath p q → valid_lifecycle_transition q r ≡ true → PhasePath p r

PhasePath-trans : {p q r : LifecyclePhase} → PhasePath p q → PhasePath q r → PhasePath p r
PhasePath-trans a here = a
PhasePath-trans a (next b v) = next (PhasePath-trans a b) v

-- Over any history of calls a registered entry stays registered, with its identity, and its phase
-- follows a path of allowed edges.
pub run_calls-PhasePath :
    (cs : List EntryCall) (cas : String) (f : IndexFile) (e : Entry)
    → entry_at cas f ≡ some e
    → (e' : Entry) × (entry_at cas (run_calls cs f) ≡ some e')
      × (identity e' ≡ identity e)
      × PhasePath e.lifecycle_phase e'.lifecycle_phase
unfolding run_calls
run_calls-PhasePath [] cas f e h = (e, h, refl, here)
run_calls-PhasePath (c ∷ cs) cas f e h =
    let (e1, h1, m) = run_call-Moves c cas f e h in
    let (e2, h2, i, p) = run_calls-PhasePath cs cas (settle f (run_call c f)) e1 h1 in
    (e2, h2, i ∙ m.same_identity, PhasePath-trans (step m) p)
  where
    step : {e1 : Entry} → Moves c cas e e1 → PhasePath e.lifecycle_phase e1.lifecycle_phase
    step m = elim m.phase_axis [ inl q ↦ rw q here | inr (v, _, _) ↦ next here v ]

PhasePath-deleted :
    {p q : LifecyclePhase} → p ≡ LifecyclePhase.deleted → PhasePath p q → q ≡ LifecyclePhase.deleted
unfolding valid_lifecycle_transition
PhasePath-deleted h here = h
PhasePath-deleted h (next a v) = ground (arith, PhasePath-deleted h a)

-- Deleted is final: no history of calls brings a deleted entry back to any other phase.
pub run_calls-deleted :
    (cs : List EntryCall) (cas : String) (f : IndexFile) (e : Entry)
    → entry_at cas f ≡ some e
    → e.lifecycle_phase ≡ LifecyclePhase.deleted
    → (e' : Entry) × (entry_at cas (run_calls cs f) ≡ some e')
      × (e'.lifecycle_phase ≡ LifecyclePhase.deleted)
run_calls-deleted cs cas f e h d =
    let (e', h', i, p) = run_calls-PhasePath cs cas f e h in (e', h', PhasePath-deleted d p)
