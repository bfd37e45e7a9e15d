-- ===== src/Certification/Sweep.antt =====
-- pkg/certification/service.go, RetractUnprovenCertifications: the loop over the Active certifications.
use mathlib.Core.Path.{subst}
use node_vault.Base.{
  Time, ◌≡◌, refl, sym, ap, ◌∙◌, Bool, true, false, List, [], ◌∷◌, ◌++◌, is_empty, arith, inl, inr,
  All, keep, snoc, All-snoc, Bool-cases, eq_refl,
}
use node_vault.Index.Schema.{IndexFile, CertifiedToolImageRecord, PromotionStatus, promotion_eq}
use node_vault.Index.Errors.{Error, Result, ok, err}
use node_vault.Index.Certified.{
  certified, same_certified_tool_key, upsert_first, upsert_certified_tool_image_record,
}
use node_vault.Certification.{saved, Saved, save, save_fails, is_proven}
use node_vault.Certification.Provable.{Provable, AllProvable}
use node_vault.Certification.Retraction.{
  Tally, retract_certifications, retracted, retracts, survives, and_then,
}

-- No two certifications of the list have the same key.
abbrev pub Differs : CertifiedToolImageRecord → CertifiedToolImageRecord → Type 0
Differs a b = same_certified_tool_key a b ≡ false

abbrev pub IsKeySet : List CertifiedToolImageRecord → Type 0
IsKeySet [] = Unit
IsKeySet (x ∷ xs) = All (Differs x) xs × IsKeySet xs

-- The write lands on the element that it is meant for.
upsert_first-at :
    {A : Type 0} (p : A → Bool) (y : A) (done : List A) (x : A) (todo : List A)
    → All (λ a. p a ≡ false) done
    → p x ≡ true
    → upsert_first p y (done ++ x ∷ todo) ≡ done ++ y ∷ todo
unfolding upsert_first
upsert_first-at p y [] x todo h e = rw e refl
upsert_first-at p y (d ∷ done) x todo h e =
    rw h.0 (ap (λ l. d ∷ l) (upsert_first-at p y done x todo h.1 e))

same_key_refl : (a : CertifiedToolImageRecord) → same_certified_tool_key a a ≡ true
unfolding same_certified_tool_key
same_key_refl a =
    ground (arith, eq_refl a.tool_spec_digest, eq_refl a.platform, eq_refl a.image_digest)

-- The index with other certifications.
abbrev with_certs : List CertifiedToolImageRecord → IndexFile → IndexFile
with_certs l f = record f { certified_tool_image_records = l }

All-implies :
    {A : Type 0} (P Q : A → Type 0) → ((a : A) → P a → Q a) → (xs : List A) → All P xs → All Q xs
All-implies P Q f [] h = tt
All-implies P Q f (x ∷ xs) h = (f x h.0, All-implies P Q f xs h.1)

snoc-append : {A : Type 0} (xs : List A) (x : A) (ys : List A) → snoc xs x ++ ys ≡ xs ++ x ∷ ys
snoc-append [] x ys = refl
snoc-append (y ∷ xs) x ys = ap (λ l. y ∷ l) (snoc-append xs x ys)

append_nil : {A : Type 0} (xs : List A) → xs ++ [] ≡ xs
append_nil [] = refl
append_nil (x ∷ xs) = ap (λ l. x ∷ l) (append_nil xs)

-- The Active ones, which the loop takes a snapshot of.
abbrev pub active_of : List CertifiedToolImageRecord → List CertifiedToolImageRecord
active_of l = keep (λ r. promotion_eq r.promotion_status PromotionStatus.active) l

-- What a successful retraction makes of the index.
save-retracted :
    (now : Time) (r : CertifiedToolImageRecord) (s u : Saved)
    → save (upsert_certified_tool_image_record now r) s ≡ (ok tt, u)
    → u.index
      ≡ with_certs
          (upsert_first
            (λ a. same_certified_tool_key a (certified now r))
            (certified now r)
            s.index.certified_tool_image_records)
          s.index
unfolding save upsert_certified_tool_image_record
save-retracted now r s u h = elim (Bool-cases (is_empty r.image_digest)) [
  | inl g ↦ absurd (refused (ap (λ x. x.0) (rw g at h)))
  | inr g ↦ written (save_fails s.failing) (rw g at h)
]
  where
    changed : IndexFile
    changed =
        with_certs
          (upsert_first (λ a. same_certified_tool_key a (certified now r)) (certified now r)
            s.index.certified_tool_image_records)
          s.index

    refused : {e : Error} → ◌≡◌ {A = Result (Unit {0})} (err e) (ok tt) → ⊥
    refused h = cc

    written : (b : Bool) → saved b changed s ≡ (ok tt, u) → u.index ≡ changed
    written true k = absurd (refused (ap (λ x. x.0) k))
    written false k = sym (ap (λ x. x.1.index) k)

-- The state of the loop: `done` is behind it, `todo` before it.
pub record At (done todo : List CertifiedToolImageRecord) (s : Saved) : Type 0 where
  pub listed : s.index.certified_tool_image_records ≡ done ++ todo
  pub behind : All (Provable s.index) done
  pub apart : All (λ d. All (Differs d) todo) done
  pub distinct : IsKeySet todo

-- The loop passes an element that it leaves as it is.
passed :
    (done todo : List CertifiedToolImageRecord) (x : CertifiedToolImageRecord) (s : Saved)
    → At done (x ∷ todo) s
    → Provable s.index x
    → At (snoc done x) todo s
passed done todo x s a p = record {
  listed = a.listed ∙ sym (snoc-append done x todo);
  behind = All-snoc _ done x a.behind p;
  apart =
      All-snoc _ done x (All-implies _ (λ d. All (Differs d) todo) (λ d h. h.1) done a.apart)
        a.distinct.0;
  distinct = a.distinct.1;
}

-- The loop retracts an element.
passed_retracted :
    (now : Time) (done todo : List CertifiedToolImageRecord) (x : CertifiedToolImageRecord)
    (s u : Saved)
    → At done (x ∷ todo) s
    → save (upsert_certified_tool_image_record now (retracted x)) s ≡ (ok tt, u)
    → At (snoc done (certified now (retracted x))) todo u
unfolding same_certified_tool_key is_proven
passed_retracted now done todo x s u a h = record {
  listed =
      ap (λ f. f.certified_tool_image_records) written
      ∙ ap (upsert_first same x') a.listed
      ∙ upsert_first-at same x' done x todo
          (All-implies _ (λ d. same d ≡ false) (λ d h. h.0) done a.apart) (same_key_refl x)
      ∙ sym (snoc-append done x' todo);
  behind =
      All-snoc _ done x' (subst (λ f. All (Provable f) done) (sym written) a.behind) (inl refl);
  apart =
      All-snoc _ done (certified now (retracted x))
        (All-implies _ (λ d. All (Differs d) todo) (λ d h. h.1) done a.apart) a.distinct.0;
  distinct = a.distinct.1;
}
  where
    x' : CertifiedToolImageRecord
    x' = certified now (retracted x)

    same : CertifiedToolImageRecord → Bool
    same b = same_certified_tool_key b x'

    written :
        u.index ≡ with_certs (upsert_first same x' s.index.certified_tool_image_records) s.index
    written = save-retracted now (retracted x) s u h

-- What holds after a save that must succeed.
after-save :
    {A : Type 0} (o : Result (Unit {0}) × Saved) (next : Saved → Result A × Saved) (r : A)
    → ((u : Saved) → o ≡ (ok tt, u) → (next u).0 ≡ ok r → AllProvable (next u).1.index)
    → (and_then o next).0 ≡ ok r
    → AllProvable (and_then o next).1.index
after-save (ok tt, u) next r h e = h u refl e
after-save (err z, u) next r h e = absurd (cc)

pub sweep :
    (now : Time) (done todo : List CertifiedToolImageRecord) (t : Tally) (s : Saved) (t' : Tally)
    → At done todo s
    → (retract_certifications now (active_of todo) t s).0 ≡ ok t'
    → AllProvable (retract_certifications now (active_of todo) t s).1.index
unfolding retract_certifications keep
sweep now done [] t s t' a r =
    subst (All (Provable s.index)) (sym (a.listed ∙ append_nil done)) a.behind
sweep now done (x ∷ todo) t s t' a r =
    elim (Bool-cases (promotion_eq x.promotion_status PromotionStatus.active)) [
      | inr c ↦
          rw c (sweep now (snoc done x) todo t s t' (passed done todo x s a (inl c)) (rw c at r))
      | inl c ↦ rw c (elim (Bool-cases (is_proven s.index x)) [
        | inl p ↦ rw p (
            sweep now (snoc done x) todo (survives x t) s t' (passed done todo x s a (inr p))
              (rw (c, p) at r))
        | inr p ↦ rw p (
            after-save (save (upsert_certified_tool_image_record now (retracted x)) s)
              (retract_certifications now (active_of todo) (retracts x t)) t'
              (λ u q k.
                sweep now (snoc done (certified now (retracted x))) todo (retracts x t) u t'
                  (passed_retracted now done todo x s u a q) k)
              (rw (c, p) at r))
      ])
    ]
