-- ===== src/Reconcile/Health/Verdicts.antt =====
-- pkg/reconcile/reconciler.go: what a slow pass does to an entry that others wrote since its snapshot.
use mathlib.Core.Path.{subst}
use node_vault.Base.{
  Time, ◌≡◌, refl, sym, ap, ◌∙◌, ◌⊎◌, inl, inr, String, Bool, true, false, some, List, [], ◌∷◌,
  ◌++◌, find_first, Option-cases, Bool-cases, if◌then◌else◌,
}
use node_vault.Index.Schema.{IndexFile, Entry, IntegrityHealth, health_eq}
use node_vault.Index.Errors.{Result, ok, ok-injective}
use node_vault.Index.Sections.{lookup-update, kept, update_first}
use node_vault.Index.Entries.{has_cas, update_entry, with_health, compare_and_set_integrity_health}
use node_vault.Index.Entries.Calls.{
  EntryCall, swaps_health, run_call, run_calls, settle, entry_at, identity, entries-update_entry,
}
use node_vault.Index.Entries.Axes.{swap-settled}
use node_vault.Reconcile.Health.{
  RegistryChecker, slow_run, slow_calls, reconcile_reachability, is_unreachable,
}

-- The identity and the phase stay, and the health does, or it goes from Healthy to Unreachable.
pub record Verdict (e e' : Entry) : Type 0 where
  pub same_identity : identity e' ≡ identity e
  pub same_phase : e'.lifecycle_phase ≡ e.lifecycle_phase
  pub health :
      (e'.integrity_health ≡ e.integrity_health)
      ⊎ ((e.integrity_health ≡ IntegrityHealth.healthy)
          × (e'.integrity_health ≡ IntegrityHealth.unreachable))

Verdict-refl : (e : Entry) → Verdict e e
Verdict-refl e = record { same_identity = refl; same_phase = refl; health = inl refl }

Verdict-trans : (a b c : Entry) → Verdict a b → Verdict b c → Verdict a c
Verdict-trans a b c v w = record {
  same_identity = w.same_identity ∙ v.same_identity;
  same_phase = w.same_phase ∙ v.same_phase;
  health = go v.health w.health;
}
  where
    go :
        (b.integrity_health ≡ a.integrity_health)
          ⊎ ((a.integrity_health ≡ IntegrityHealth.healthy)
              × (b.integrity_health ≡ IntegrityHealth.unreachable))
        → (c.integrity_health ≡ b.integrity_health)
          ⊎ ((b.integrity_health ≡ IntegrityHealth.healthy)
              × (c.integrity_health ≡ IntegrityHealth.unreachable))
        → (c.integrity_health ≡ a.integrity_health)
          ⊎ ((a.integrity_health ≡ IntegrityHealth.healthy)
              × (c.integrity_health ≡ IntegrityHealth.unreachable))
    go (inl p) (inl q) = inl (q ∙ p)
    go (inl p) (inr q) = inr (sym p ∙ q.0, q.1)
    go (inr p) (inl q) = inr (p.0, q ∙ p.1)
    go (inr p) (inr q) = inr (p.0, q.1)

-- What the index has for a CasHash, after its entry `e` got a verdict.
abbrev pub Judged : String → Entry → IndexFile → Type 0
Judged cas e f = (e' : Entry) × (entry_at cas f ≡ some e') × Verdict e e'

healthy_lem :
    (h : IntegrityHealth) → health_eq h IntegrityHealth.healthy ≡ true → h ≡ IntegrityHealth.healthy
healthy_lem IntegrityHealth.healthy e = refl
healthy_lem IntegrityHealth.unset e = cc
healthy_lem IntegrityHealth.partial e = cc
healthy_lem IntegrityHealth.missing e = cc
healthy_lem IntegrityHealth.unreachable e = cc
healthy_lem IntegrityHealth.orphaned e = cc

some-injective : {A : Type 0} {a b : A} → some a ≡ some b → a ≡ b
some-injective h = cc

swap-Judged :
    (now : Time) (k cas : String) (f : IndexFile) (e : Entry)
    → entry_at cas f ≡ some e
    → Judged cas e (
        settle f
          (run_call (swaps_health now k IntegrityHealth.healthy IntegrityHealth.unreachable) f))
unfolding run_call compare_and_set_integrity_health
swap-Judged now k cas f e h = elim (Option-cases (find_first (has_cas k) f.entries)) [
  | inl n ↦ rw n (e, h, Verdict-refl e)
  | inr (x, n) ↦ elim (Bool-cases (health_eq x.integrity_health IntegrityHealth.healthy)) [
    | inr m ↦ rw (n, m) (e, h, Verdict-refl e)
    | inl m ↦
        subst (Judged cas e)
          (sym (swap-settled now k IntegrityHealth.healthy IntegrityHealth.unreachable f x n m))
          (swapped x n (healthy_lem x.integrity_health m))
  ]
]
  where
    lost : Entry → Entry
    lost y = with_health now IntegrityHealth.unreachable y

    swapped :
        (x : Entry)
        → find_first (has_cas k) f.entries ≡ some x
        → x.integrity_health ≡ IntegrityHealth.healthy
        → Judged cas e (settle f (update_entry k (λ y. ok (lost y)) f))
    swapped x n m = rw (entries-update_entry k (λ y. ok (lost y)) f) (
        go (
          lookup-update (λ y. y.cas_hash) k cas (λ y. ok (lost y)) f.entries e
            (λ a b q. ap (λ y. y.cas_hash) (sym (ok-injective (lost a) b q))) h))
      where
        seen : List Entry
        seen = kept f.entries (update_first (has_cas k) (λ y. ok (lost y)) f.entries)

        go :
            (find_first (has_cas cas) seen ≡ some e)
              ⊎ ((e' : Entry) × (k ≡ cas)
                  × (◌≡◌ {A = Result Entry} (ok (lost e)) (ok e'))
                  × (find_first (has_cas cas) seen ≡ some e'))
            → (e' : Entry) × (find_first (has_cas cas) seen ≡ some e') × Verdict e e'
        go (inl q) = (e, q, Verdict-refl e)
        go (inr (e', here, q, l)) = (
          e',
          l,
          subst (Verdict e) (ok-injective (lost e) e' q) (record {
            same_identity = refl;
            same_phase = refl;
            health = inr (ap (λ y. y.integrity_health) (same_entry here) ∙ m, refl);
          }),
        )
          where
            same_entry : k ≡ cas → e ≡ x
            same_entry here =
                some-injective
                  (sym h ∙ subst (λ c. find_first (has_cas c) f.entries ≡ some x) here n)

-- Calls that are all swaps from Healthy to Unreachable.
data AreSwaps : List EntryCall → Type 0 where
  none_left : AreSwaps []
  swap_and :
      (now : Time) (k : String) {cs : List EntryCall}
      → AreSwaps cs
      → AreSwaps (swaps_health now k IntegrityHealth.healthy IntegrityHealth.unreachable ∷ cs)

run_calls-Judged :
    (cas : String) {cs : List EntryCall} (f : IndexFile) (e : Entry)
    → AreSwaps cs
    → entry_at cas f ≡ some e
    → Judged cas e (run_calls cs f)
unfolding run_calls
run_calls-Judged cas f e AreSwaps.none_left h = (e, h, Verdict-refl e)
run_calls-Judged cas f e (AreSwaps.swap_and now k s) h =
    let (e1, h1, v1) = swap-Judged now k cas f e h in
    let (e2, h2, v2) = run_calls-Judged cas _ e1 s h1 in (e2, h2, Verdict-trans e e1 e2 v1 v2)

slow_calls-AreSwaps :
    (now : Time) (checker : RegistryChecker) (es : List Entry)
    → AreSwaps (slow_calls now checker es)
unfolding slow_calls reconcile_reachability
slow_calls-AreSwaps now checker [] = AreSwaps.none_left
slow_calls-AreSwaps now checker (e ∷ es) =
    elim (Bool-cases (health_eq e.integrity_health IntegrityHealth.healthy)) [
      | inr c ↦ rw c (slow_calls-AreSwaps now checker es)
      | inl c ↦ rw c (
          subst (λ h. AreSwaps (swaps_from h ++ slow_calls now checker es))
            (sym (healthy_lem e.integrity_health c))
            (go (is_unreachable (checker.pull_reachable e)) (slow_calls-AreSwaps now checker es)))
    ]
  where
    swaps_from : IntegrityHealth → List EntryCall
    swaps_from h =
        if is_unreachable (checker.pull_reachable e)
        then swaps_health now e.cas_hash h IntegrityHealth.unreachable ∷ []
        else []

    go :
        (b : Bool)
        → AreSwaps (slow_calls now checker es)
        → AreSwaps (
            (if b
              then swaps_health now e.cas_hash IntegrityHealth.healthy IntegrityHealth.unreachable
                ∷ []
              else [])
            ++ slow_calls now checker es)
    go true s = AreSwaps.swap_and now e.cas_hash s
    go false s = s

-- A slow pass never overwrites a fresher verdict: on whatever the index has become since its snapshot,
-- each entry keeps its identity and its lifecycle phase, and its health stays what it is at the time
-- of the write, or goes from Healthy to Unreachable.
pub slow_run-Judged :
    (now : Time) (checker : RegistryChecker) (snapshot : List Entry) (f : IndexFile) (cas : String)
    (e : Entry)
    → entry_at cas f ≡ some e
    → Judged cas e (slow_run now checker snapshot f)
unfolding slow_run
slow_run-Judged now checker snapshot f cas e h =
    run_calls-Judged cas f e (slow_calls-AreSwaps now checker snapshot) h
