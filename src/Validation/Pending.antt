-- ===== src/Validation/Pending.antt =====
-- pkg/validation/service.go, SubmitToolCheckRecord: a record of this wire does not certify.
use mathlib.Core.Path.{subst}
use node_vault.Base.{
  ◌≡◌, refl, sym, ◌∙◌, Time, String, Bool, true, false, not, ◌||◌, Option, none, some, arith,
  if◌then◌else◌, ◌==◌, Bool-cases, inl, inr, is_empty,
}
use node_vault.Status.{Outcome, ok, fail, Code}
use node_vault.Index.Schema.{IndexFile, ToolCheckRecord, Entry}
use node_vault.Index.Errors.{Result, Result-cases, ◌>>=◌}
use node_vault.Index.Errors as Errors
use node_vault.Index.Entries.{get_by_image_digest, record_tool_profile_referrer, update_entry}
use node_vault.Index.Records.{Fingerprint, append_check, append_tool_check_record}
use node_vault.Certification.{Saved, save, is_admissible, certifies_on_check, evaluate_after_check}
use node_vault.Certification.Provable.{save-keeps}
use node_vault.Validation.Messages.{ToolCheckRecordRequest, SubmitRecordResponse}
use node_vault.Validation.{
  Push, Cuts, check_record, push_profile_referrer, pushed, referrer_of, check_status, answer_check,
  after_check, submit_tool_check_record, in_range,
}

-- The certifications and the catalog are those of an index.
abbrev pub SameDecisions : IndexFile → IndexFile → Type 0
SameDecisions f g =
    (g.certified_tool_image_records ≡ f.certified_tool_image_records)
    × (g.tool_function_catalog_entries ≡ f.tool_function_catalog_entries)

-- The answer, if there is one, says so, and nothing was decided.
abbrev SaysPending : Outcome SubmitRecordResponse → Type 0
SaysPending (ok r) = r.certification_status ≡ "pending"
SaysPending (fail code) = Unit

abbrev pub IsPending : IndexFile → Outcome SubmitRecordResponse × Saved → Type 0
IsPending f x = SaysPending x.0 × SameDecisions f x.1.index

not-admissible :
    (now : Time) (req : ToolCheckRecordRequest) → is_admissible (check_record now req) ≡ false
unfolding is_admissible check_record
not-admissible now req = ground arith

update-SameDecisions :
    (k : String) (u : Entry → Result Entry) (f g : IndexFile)
    → update_entry k u f ≡ Errors.ok (tt, g)
    → SameDecisions f g
unfolding update_entry
update-SameDecisions k u f g e = ground (e, arith)

SameDecisions-trans :
    (f g h : IndexFile) → SameDecisions f g → SameDecisions g h → SameDecisions f h
SameDecisions-trans f g h a b = (b.0 ∙ a.0, b.1 ∙ a.1)

pushed-SameDecisions :
    (now : Time) (rec : ToolCheckRecord) (e : Entry) (o : Option String) (f : IndexFile) (s : Saved)
    → SameDecisions f s.index
    → SameDecisions f (pushed now rec e o s).index
unfolding pushed record_tool_profile_referrer
pushed-SameDecisions now rec e none f s h = h
pushed-SameDecisions now rec e (some digest) f s h =
    save-keeps (SameDecisions f)
      (record_tool_profile_referrer now e.cas_hash (referrer_of now rec digest)) s h
      (λ g q. SameDecisions-trans f s.index g h (update-SameDecisions e.cas_hash _ s.index g q))

push-SameDecisions :
    (push : Push) (cuts : Cuts) (now : Time) (rec : ToolCheckRecord) (f : IndexFile) (s : Saved)
    → SameDecisions f s.index
    → SameDecisions f (push_profile_referrer push cuts now rec s).index
unfolding push_profile_referrer
push-SameDecisions push cuts now rec f s h =
    elim (Bool-cases (not (rec.validation_status == "succeeded") || is_empty rec.validation_hash)) [
      | inl c ↦ rw c h
      | inr c ↦ rw c (elim (Result-cases (get_by_image_digest rec.image_digest s.index)) [
        | inl (e, q) ↦ rw q (pushed-SameDecisions now rec e _ f s h)
        | inr (z, q) ↦ rw q h
      ])
    ]

append-SameDecisions :
    (h : Fingerprint) (now : Time) (r : ToolCheckRecord) (f g : IndexFile)
    → append_tool_check_record h now r f ≡ Errors.ok (tt, g)
    → SameDecisions f g
unfolding append_tool_check_record append_check
append-SameDecisions h now r f g e = ground (e, arith)

unevaluated :
    (now : Time) (rec : ToolCheckRecord) (s : Saved)
    → is_admissible rec ≡ false
    → evaluate_after_check now rec s ≡ (Errors.ok tt, s)
unfolding evaluate_after_check
unevaluated now rec s a = rw a refl

pending :
    (rec : ToolCheckRecord)
    → is_admissible rec ≡ false
    → check_status rec (Errors.ok tt) ≡ "pending"
unfolding check_status certifies_on_check
pending rec a = rw a refl

-- What is answered and stored once the record went through the Store.
after-Pending :
    (push : Push) (cuts : Cuts) (now : Time) (rec : ToolCheckRecord) (f : IndexFile)
    (x : Result (Unit {0}) × Saved)
    → is_admissible rec ≡ false
    → SameDecisions f x.1.index
    → IsPending f (after_check push cuts now rec x)
unfolding after_check answer_check
after-Pending push cuts now rec f (Errors.err e, s) a h = (tt, h)
after-Pending push cuts now rec f (Errors.ok _, s) a h =
    subst (λ x. IsPending f (answer_check push cuts now rec x)) (sym (unevaluated now rec s a))
      (pending rec a, push-SameDecisions push cuts now rec f s h)

-- A check record that is submitted over this wire never certifies: whatever it says, whichever saves
-- fail and whatever the registry does, the certifications and the catalog stay as they are, and an
-- answer without an error says that the certification is pending.
pub submit_tool_check_record-IsPending :
    (h : Fingerprint) (push : Push) (cuts : Cuts) (now : Time) (req : ToolCheckRecordRequest)
    (s : Saved)
    → IsPending s.index (submit_tool_check_record h push cuts now req s)
unfolding submit_tool_check_record
submit_tool_check_record-IsPending h push cuts now req s =
    go (is_empty req.check_id || is_empty req.image_digest) (not (in_range req.checked_at))
  where
    rec : ToolCheckRecord
    rec = check_record now req

    stored : Result (Unit {0}) × Saved
    stored = save (append_tool_check_record h now rec) s

    go :
        (b c : Bool)
        → IsPending s.index (
            if b
            then (fail Code.invalid_argument, s)
            else if c
            then (fail Code.invalid_argument, s)
            else after_check push cuts now rec stored)
    go true c = (tt, (refl, refl))
    go false true = (tt, (refl, refl))
    go false false = after-Pending push cuts now rec s.index stored (not-admissible now req) (
        save-keeps (SameDecisions s.index) (append_tool_check_record h now rec) s (refl, refl)
          (λ g q. append-SameDecisions h now rec s.index g q))
