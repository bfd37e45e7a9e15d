-- ===== src/Certification/AfterRetraction.antt =====
-- pkg/certification/service.go, RetractUnprovenCertifications: what is left Active when it succeeds.
use mathlib.Core.Path.{subst}
use node_vault.Base.{
  ℕ, Time, ◌≡◌, refl, ap, Bool, true, false, List, [], ◌∷◌, inl, inr, Bool-cases, Option-cases,
}
use node_vault.Index.Schema.{CertifiedToolImageRecord, PromotionStatus, ToolFunctionCatalogEntry}
use node_vault.Index.Errors.{Result, ok, err, Result-cases}
use node_vault.Index.Records.{get_tool_check_record_by_id}
use node_vault.Index.Certified.{
  upsert_tool_function_catalog_entry, list_certified_tool_image_records,
}
use node_vault.Certification.{Saved, save}
use node_vault.Certification.Provable.{AllProvable, save-keeps, upsert_catalog-AllProvable}
use node_vault.Certification.Retraction.{
  Tally, retract_certifications, and_then, retract_unproven_certifications, then_entries,
  retract_entries, retract_entry, keep_catalog_for_survivor, no_tally, rebuilt, among, survivor_of,
}
use node_vault.Certification.Sweep.{At, IsKeySet, active_of, sweep}

-- The catalog loop leaves the certifications, and the records that prove them, as they are.
save_catalog-AllProvable :
    (now : Time) (e : ToolFunctionCatalogEntry) (s : Saved)
    → AllProvable s.index
    → AllProvable (save (upsert_tool_function_catalog_entry now e) s).1.index
save_catalog-AllProvable now e s h =
    save-keeps AllProvable (upsert_tool_function_catalog_entry now e) s h
      (λ f q. upsert_catalog-AllProvable now e s.index f h q)

keep_catalog-AllProvable :
    (now : Time) (e : ToolFunctionCatalogEntry) (c : CertifiedToolImageRecord) (b : Bool)
    (s : Saved)
    → AllProvable s.index
    → AllProvable (keep_catalog_for_survivor now e c b s).1.index
unfolding keep_catalog_for_survivor
keep_catalog-AllProvable now e c false s h = h
keep_catalog-AllProvable now e c true s h =
    elim (Result-cases (get_tool_check_record_by_id c.check_id s.index)) [
      | inl (check, q) ↦ rw q (save_catalog-AllProvable now (rebuilt e c check s.index) s h)
      | inr (z, q) ↦ rw q h
    ]

retract_entry-AllProvable :
    (now : Time) (t : Tally) (e : ToolFunctionCatalogEntry) (s : Saved)
    → AllProvable s.index
    → AllProvable (retract_entry now t e s).1.index
unfolding retract_entry
retract_entry-AllProvable now t e s h = elim (Bool-cases (among e.cas_hash t.retracted_cas)) [
  | inr c ↦ rw c h
  | inl c ↦ rw c (elim (Option-cases (survivor_of e.cas_hash t.survivors)) [
    | inl q ↦ rw q (
        save_catalog-AllProvable now (record e { promotion_status = PromotionStatus.retracted }) s
          h)
    | inr (survivor, q) ↦ rw q (keep_catalog-AllProvable now e survivor _ s h)
  ])
]

entries-AllProvable :
    (now : Time) (t : Tally) (es : List ToolFunctionCatalogEntry) (s : Saved)
    → AllProvable s.index
    → AllProvable (retract_entries now t es s).1.index
unfolding retract_entries
entries-AllProvable now t [] s h = h
entries-AllProvable now t (e ∷ es) s h =
    go (retract_entry now t e s) (retract_entry-AllProvable now t e s h)
      (λ u k. entries-AllProvable now t es u k)
  where
    go :
        (o : Result (Unit {0}) × Saved)
        → AllProvable o.1.index
        → ((u : Saved) → AllProvable u.index → AllProvable (retract_entries now t es u).1.index)
        → AllProvable (and_then o (retract_entries now t es)).1.index
    go (ok tt, u) k f = f u k
    go (err z, u) k f = k

-- When RetractUnprovenCertifications succeeds, every certification that is left Active is provable
-- from the stored records, whatever certifications it started from, as long as no two of them had
-- the same key.
pub retract_unproven_certifications-AllProvable :
    (now : Time) (s : Saved) (n : ℕ)
    → IsKeySet s.index.certified_tool_image_records
    → (retract_unproven_certifications now s).0 ≡ ok n
    → AllProvable (retract_unproven_certifications now s).1.index
unfolding retract_unproven_certifications list_certified_tool_image_records
retract_unproven_certifications-AllProvable now s n k r =
    go (retract_certifications now (active_of certs) no_tally s) refl r
  where
    certs : List CertifiedToolImageRecord
    certs = s.index.certified_tool_image_records

    start : At [] certs s
    start = record { listed = refl; behind = tt; apart = tt; distinct = k }

    after :
        (t : Tally) (u : Saved)
        → AllProvable u.index
        → AllProvable (then_entries now (ok t, u)).1.index
    after t u h =
        elim t.retracted_cas
          as (λ l.
            AllProvable (then_entries now (ok (record t { retracted_cas = l }), u)).1.index) [
              | [] ↦ h
              | cas ∷ more ↦ entries-AllProvable now _ _ u h
            ]

    go :
        (o : Result Tally × Saved)
        → retract_certifications now (active_of certs) no_tally s ≡ o
        → (then_entries now o).0 ≡ ok n
        → AllProvable (then_entries now o).1.index
    go (err z, u) q h = absurd (cc)
    go (ok t, u) q h = after t u (
        subst (λ x. AllProvable x.1.index) q
          (sweep now [] certs no_tally s t start (ap (λ x. x.0) q)))
