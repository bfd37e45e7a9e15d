-- ===== src/Certification/Provable.antt =====
-- pkg/certification/service.go: what the evaluations after a check and after a scan keep true of the
-- certifications.
use mathlib.Core.Path.{subst}
use node_vault.Base.{
  Time, ◌≡◌, refl, ap, Bool, true, false, not, ◌&&◌, ◌||◌, Option, none, some, List, [], ◌∷◌,
  is_empty, arith, ◌⊎◌, inl, inr, All, keep, Bool-cases, if◌then◌else◌,
}
use node_vault.Index.Schema.{
  IndexFile, ToolCheckRecord, ToolScanRecord, CertifiedToolImageRecord, PromotionStatus,
  ToolFunctionCatalogEntry, promotion_eq,
}
use node_vault.Index.Errors.{Result, ok, err}
use node_vault.Index.Records.{
  get_tool_check_record_by_id, get_tool_scan_record_by_id, list_tool_check_records_by_image_digest,
  list_tool_scan_records_by_image_digest,
}
use node_vault.Index.Certified.{
  certified, upsert_first, upsert_certified_tool_image_record, upsert_tool_function_catalog_entry,
}
use node_vault.Certification.{
  saved, Saved, save, settled, save_fails, is_admissible, certificate, publish, certify,
  catalog_entry, evaluate_after_check, evaluate_after_scan, certify_first, latest_scan,
  terminal_l5b, is_blocked, is_proven,
}

-- The certification is not Active, or the stored records prove it.
abbrev pub Provable : IndexFile → CertifiedToolImageRecord → Type 0
Provable f cert =
    (promotion_eq cert.promotion_status PromotionStatus.active ≡ false) ⊎ (is_proven f cert ≡ true)

abbrev pub AllProvable : IndexFile → Type 0
AllProvable f = All (Provable f) f.certified_tool_image_records

pub All-upsert_first :
    {A : Type 0} (P : A → Type 0) (p : A → Bool) (y : A) (xs : List A)
    → P y
    → All P xs
    → All P (upsert_first p y xs)
unfolding upsert_first
All-upsert_first P p y [] h k = (h, tt)
All-upsert_first P p y (x ∷ xs) h k = elim (Bool-cases (p x)) [
  | inl e ↦ rw e (h, k.1)
  | inr e ↦ rw e (k.0, All-upsert_first P p y xs h k.1)
]

-- A check that is stored under its ID.
abbrev pub IsStored : IndexFile → ToolCheckRecord → Type 0
IsStored f check =
    (is_empty check.check_id ≡ false) × (get_tool_check_record_by_id check.check_id f ≡ ok check)

-- What certify writes is provable: the check is terminal or the scan closes it, unless blocked.
certificate-Provable-check :
    (now : Time) (check : ToolCheckRecord) (scan : Option ToolScanRecord) (f : IndexFile)
    → IsStored f check
    → is_admissible check ≡ true
    → check.terminal ≡ true
    → Provable f (certified now (certificate now check scan f))
unfolding certificate is_proven
certificate-Provable-check now check scan f h a t = inr (rw (h.0, h.1, a, t) refl)

certificate-Provable-scan :
    (now : Time) (check : ToolCheckRecord) (scan : ToolScanRecord) (f : IndexFile)
    → IsStored f check
    → is_empty scan.scan_id ≡ false
    → get_tool_scan_record_by_id scan.scan_id f ≡ ok scan
    → is_admissible check ≡ true
    → (terminal_l5b scan || is_blocked scan) ≡ true
    → Provable f (certified now (certificate now check (some scan) f))
unfolding certificate is_proven
certificate-Provable-scan now check scan f h n s a b = elim (Bool-cases (is_blocked scan)) [
  | inl e ↦ inl (rw e refl)
  | inr e ↦ inr (rw (h.0, h.1, a) (ground (arith, n, s, b, e)))
]

pub save-keeps :
    (P : IndexFile → Type 0) (op : IndexFile → Result (Unit {0} × IndexFile)) (s : Saved)
    → P s.index
    → ((f : IndexFile) → op s.index ≡ ok (tt, f) → P f)
    → P (save op s).1.index
unfolding save
save-keeps P op s h k = go (op s.index) refl
  where
    at : (b : Bool) (f : IndexFile) → P f → P (saved b f s).1.index
    at true f q = q
    at false f q = q

    go : (r : Result (Unit {0} × IndexFile)) → op s.index ≡ r → P (settled s r).1.index
    go (err e) q = h
    go (ok (_, f)) q = at (save_fails s.failing) f (k f q)

abbrev index_or : IndexFile → Result (Unit {0} × IndexFile) → IndexFile
index_or f (ok (_, g)) = g
index_or f (err e) = f

upsert_certified-AllProvable :
    (now : Time) (r : CertifiedToolImageRecord) (f g : IndexFile)
    → Provable f (certified now r)
    → AllProvable f
    → upsert_certified_tool_image_record now r f ≡ ok (tt, g)
    → AllProvable g
unfolding upsert_certified_tool_image_record is_proven
upsert_certified-AllProvable now r f g h k e =
    subst AllProvable (ap (index_or f) e) (elim (Bool-cases (is_empty r.image_digest)) [
      | inl c ↦ rw c k
      | inr c ↦
          rw c
            (All-upsert_first (Provable f) _ (certified now r) f.certified_tool_image_records h k)
    ])

pub upsert_catalog-AllProvable :
    (now : Time) (r : ToolFunctionCatalogEntry) (f g : IndexFile)
    → AllProvable f
    → upsert_tool_function_catalog_entry now r f ≡ ok (tt, g)
    → AllProvable g
unfolding upsert_tool_function_catalog_entry is_proven
upsert_catalog-AllProvable now r f g k e =
    subst AllProvable (ap (index_or f) e)
      (elim (Bool-cases (is_empty r.cas_hash)) [ inl c ↦ rw c k | inr c ↦ rw c k ])

publish-AllProvable :
    (now : Time) (check : ToolCheckRecord) (cert : CertifiedToolImageRecord)
    (x : Result (Unit {0}) × Saved)
    → AllProvable x.1.index
    → AllProvable (publish now check cert x).1.index
unfolding publish
publish-AllProvable now check cert (err e, s) h = h
publish-AllProvable now check cert (ok _, s) h = go (is_empty cert.cas_hash)
  where
    op : IndexFile → Result (Unit {0} × IndexFile)
    op = upsert_tool_function_catalog_entry now (catalog_entry check cert s.index)

    go : (b : Bool) → AllProvable (if b then (ok tt, s) else save op s).1.index
    go true = h
    go false =
        save-keeps AllProvable op s h
          (λ f q. upsert_catalog-AllProvable now (catalog_entry check cert s.index) s.index f h q)

certify-AllProvable :
    (now : Time) (check : ToolCheckRecord) (scan : Option ToolScanRecord) (s : Saved)
    → Provable s.index (certified now (certificate now check scan s.index))
    → AllProvable s.index
    → AllProvable (certify now check scan s).1.index
unfolding certify
certify-AllProvable now check scan s p h =
    elim (Bool-cases (is_empty check.tool_name || is_empty check.version)) [
      | inl e ↦ rw e h
      | inr e ↦ rw e (
          publish-AllProvable now check (certificate now check scan s.index) _ (
            save-keeps AllProvable
              (upsert_certified_tool_image_record now (certificate now check scan s.index)) s h
              (λ f q.
                upsert_certified-AllProvable now (certificate now check scan s.index) s.index f p h
                  q)))
    ]

-- EvaluateAfterCheck keeps every Active certification provable from the stored records, whichever
-- saves fail, when the check that it evaluates is stored under its ID.
pub evaluate_after_check-AllProvable :
    (now : Time) (check : ToolCheckRecord) (s : Saved)
    → IsStored s.index check
    → AllProvable s.index
    → AllProvable (evaluate_after_check now check s).1.index
unfolding evaluate_after_check
evaluate_after_check-AllProvable now check s h k = elim (Bool-cases (is_admissible check)) [
  | inr e ↦ rw e k
  | inl e ↦ elim (Bool-cases check.terminal) [
    | inr t ↦ rw (e, t) k
    | inl t ↦
        let scan =
          latest_scan none (list_tool_scan_records_by_image_digest check.image_digest s.index) in
        rw (e, t)
          (certify-AllProvable now check scan s
            (certificate-Provable-check now check scan s.index h e t) k)
  ]
]

certify_first-AllProvable :
    (now : Time) (scan : ToolScanRecord) (cs : List ToolCheckRecord) (s : Saved)
    → All (IsStored s.index) cs
    → is_empty scan.scan_id ≡ false
    → get_tool_scan_record_by_id scan.scan_id s.index ≡ ok scan
    → (terminal_l5b scan || is_blocked scan) ≡ true
    → AllProvable s.index
    → AllProvable (certify_first now scan cs s).1.index
unfolding certify_first
certify_first-AllProvable now scan [] s h n g b k = k
certify_first-AllProvable now scan (c ∷ cs) s h n g b k = elim (Bool-cases (is_admissible c)) [
  | inl e ↦ rw e (
      certify-AllProvable now c (some scan) s
        (certificate-Provable-scan now c scan s.index h.0 n g e b) k)
  | inr e ↦ rw e (certify_first-AllProvable now scan cs s h.1 n g b k)
]

pub All-keep-All :
    {A : Type 0} (P : A → Type 0) (p : A → Bool) (xs : List A) → All P xs → All P (keep p xs)
unfolding keep
All-keep-All P p [] h = tt
All-keep-All P p (x ∷ xs) h = elim (Bool-cases (p x)) [
  | inl e ↦ rw e (h.0, All-keep-All P p xs h.1)
  | inr e ↦ rw e (All-keep-All P p xs h.1)
]

-- EvaluateAfterScan keeps every Active certification provable from the stored records, whichever
-- saves fail, when the scan that it evaluates and every check are stored under their IDs.
pub evaluate_after_scan-AllProvable :
    (now : Time) (scan : ToolScanRecord) (s : Saved)
    → All (IsStored s.index) s.index.tool_check_records
    → is_empty scan.scan_id ≡ false
    → get_tool_scan_record_by_id scan.scan_id s.index ≡ ok scan
    → AllProvable s.index
    → AllProvable (evaluate_after_scan now scan s).1.index
unfolding evaluate_after_scan list_tool_check_records_by_image_digest
evaluate_after_scan-AllProvable now scan s h n g k =
    elim (Bool-cases (terminal_l5b scan || is_blocked scan)) [
      | inr e ↦ rw (neither (terminal_l5b scan) (is_blocked scan) e) k
      | inl e ↦ rw (some_one (terminal_l5b scan) (is_blocked scan) e) (
          certify_first-AllProvable now scan _ s
            (All-keep-All (IsStored s.index) _ s.index.tool_check_records h) n g e k)
    ]
  where
    neither : (a b : Bool) → (a || b) ≡ false → (not a && not b) ≡ true
    neither a b e = ground arith

    some_one : (a b : Bool) → (a || b) ≡ true → (not a && not b) ≡ false
    some_one a b e = ground arith
