-- ===== src/Index/Certified/Keyed.antt =====
-- pkg/index/store.go, UpsertCertifiedToolImageRecord: what the lookup by spec digest and platform
-- sees of the certification records.
use node_vault.Base.{
  Time, ◌≡◌, ◌∙◌, refl, String, Bool, true, false, not, ◌&&◌, some, List, [], ◌∷◌, arith, eq_iff,
  is_empty, find_first, if◌then◌else◌, ap, All, Bool-cases, inl, inr,
}
use node_vault.Index.Schema.{IndexFile, CertifiedToolImageRecord}
use node_vault.Index.Errors.{Error, Result, ok, err}
use node_vault.Index.Sections.{or_not_found}
use node_vault.Index.Certified.{
  upsert_first, is_keyed, same_certified_tool_key, certified, upsert_certified_tool_image_record,
  has_key, get_certified_tool_image_record_by_tool_spec_digest_and_platform,
}

module _ {A : Type 0} (p q : A → Bool) (y : A) where
  -- A test that the new element passes, and the elements that it replaces.
  pub upsert_first-found :
      (xs : List A)
      → ((x : A) → q x ≡ true → p x ≡ true)
      → q y ≡ true
      → find_first q (upsert_first p y xs) ≡ some y
  unfolding upsert_first find_first
  upsert_first-found [] h k = ground arith
  upsert_first-found (x ∷ xs) h k = ground (arith, h x, upsert_first-found xs h k)

  -- A test that they all fail.
  pub upsert_first-other :
      (xs : List A)
      → ((x : A) → p x ≡ true → q x ≡ false)
      → q y ≡ false
      → find_first q (upsert_first p y xs) ≡ find_first q xs
  unfolding upsert_first find_first
  upsert_first-other [] h k = ground arith
  upsert_first-other (x ∷ xs) h k = ground (arith, h x, upsert_first-other xs h k)

same_key :
    (r a : CertifiedToolImageRecord) (spec platform : String)
    → is_keyed r ≡ true
    → has_key spec platform r ≡ true
    → has_key spec platform a ≡ true
    → same_certified_tool_key a r ≡ true
unfolding same_certified_tool_key
same_key r a spec platform k e h = ground (
  arith,
  eq_iff a.tool_spec_digest r.tool_spec_digest,
  eq_iff a.platform r.platform,
  eq_iff a.tool_spec_digest spec,
  eq_iff a.platform platform,
  eq_iff r.tool_spec_digest spec,
  eq_iff r.platform platform,
)

other_key :
    (r a : CertifiedToolImageRecord) (spec platform : String)
    → is_keyed r ≡ true
    → is_empty spec ≡ false
    → is_empty platform ≡ false
    → has_key spec platform r ≡ false
    → same_certified_tool_key a r ≡ true
    → has_key spec platform a ≡ false
unfolding same_certified_tool_key
other_key r a spec platform k n m d h = ground (
  arith,
  eq_iff a.tool_spec_digest r.tool_spec_digest,
  eq_iff a.platform r.platform,
  eq_iff a.tool_spec_digest spec,
  eq_iff a.platform platform,
)

records-upsert :
    (now : Time) (r : CertifiedToolImageRecord) (f : IndexFile) {f' : IndexFile}
    → upsert_certified_tool_image_record now r f ≡ ok (tt, f')
    → f'.certified_tool_image_records
      ≡ upsert_first
          (λ a. same_certified_tool_key a (certified now r))
          (certified now r)
          f.certified_tool_image_records
unfolding upsert_certified_tool_image_record
records-upsert now r f q = ground arith

got :
    (spec platform : String) (f : IndexFile) {r : CertifiedToolImageRecord}
    → find_first (has_key spec platform) f.certified_tool_image_records ≡ some r
    → get_certified_tool_image_record_by_tool_spec_digest_and_platform spec platform f ≡ ok r
unfolding get_certified_tool_image_record_by_tool_spec_digest_and_platform
got spec platform f q = rw q refl

got-same :
    (spec platform : String) (f f' : IndexFile)
    → find_first (has_key spec platform) f'.certified_tool_image_records
      ≡ find_first (has_key spec platform) f.certified_tool_image_records
    → get_certified_tool_image_record_by_tool_spec_digest_and_platform spec platform f'
      ≡ get_certified_tool_image_record_by_tool_spec_digest_and_platform spec platform f
unfolding get_certified_tool_image_record_by_tool_spec_digest_and_platform
got-same spec platform f f' q = ap or_not_found q

refused :
    (now : Time) (r : CertifiedToolImageRecord) (f : IndexFile) {e : Error}
    → upsert_certified_tool_image_record now r f ≡ err e
    → is_empty r.image_digest ≡ true
unfolding upsert_certified_tool_image_record
refused now r f q = ground arith

accepted :
    (now : Time) (r : CertifiedToolImageRecord) (f : IndexFile) {g : IndexFile}
    → upsert_certified_tool_image_record now r f ≡ ok (tt, g)
    → is_empty r.image_digest ≡ false
unfolding upsert_certified_tool_image_record
accepted now r f q = ground arith

-- Once a decision with both keys is stored, the lookup by a pair of nonempty keys gives that decision
-- for its own pair, and what it gave before for every other pair.
upsert_certified_tool_image_record_lem :
    (now : Time) (r : CertifiedToolImageRecord) (f : IndexFile) (spec platform : String)
    {f' : IndexFile}
    → is_keyed r ≡ true
    → is_empty spec ≡ false
    → is_empty platform ≡ false
    → upsert_certified_tool_image_record now r f ≡ ok (tt, f')
    → get_certified_tool_image_record_by_tool_spec_digest_and_platform spec platform f' ≡ (
        if has_key spec platform r
        then ok (certified now r)
        else get_certified_tool_image_record_by_tool_spec_digest_and_platform spec platform f)
upsert_certified_tool_image_record_lem now r f spec platform {f'} k n m q =
    elim (Bool-cases (has_key spec platform r)) [
      | inl e ↦ rw e (
          got spec platform f' (
            rw (records-upsert now r f q) (
              upsert_first-found (λ a. same_certified_tool_key a (certified now r))
                (has_key spec platform) (certified now r) f.certified_tool_image_records
                (λ a h. same_key (certified now r) a spec platform k e h) e)))
      | inr e ↦ rw e (
          got-same spec platform f f' (
            rw (records-upsert now r f q) (
              upsert_first-other (λ a. same_certified_tool_key a (certified now r))
                (has_key spec platform) (certified now r) f.certified_tool_image_records
                (λ a h. other_key (certified now r) a spec platform k n m e h) e)))
    ]

-- A call of the Store: a refused one changes nothing.
abbrev upserted : Result (Unit {0} × IndexFile) → IndexFile → IndexFile
upserted (ok (_, g)) f = g
upserted (err e) f = f

-- A history of decisions, each stored at its time.
pub run_upserts : List (Time × CertifiedToolImageRecord) → IndexFile → IndexFile
run_upserts [] f = f
run_upserts ((now, r) ∷ rs) f =
    run_upserts rs (upserted (upsert_certified_tool_image_record now r f) f)

-- What a table from pairs of keys to decisions, which the history overwrites, holds under one pair.
unfoldable pub latest_decision :
    String
    → String
    → List (Time × CertifiedToolImageRecord)
    → Result CertifiedToolImageRecord
    → Result CertifiedToolImageRecord
latest_decision spec platform [] old = old
latest_decision spec platform ((now, r) ∷ rs) old =
    latest_decision spec platform rs (
      if not (is_empty r.image_digest) && has_key spec platform r
      then ok (certified now r)
      else old)

upserted-get :
    (now : Time) (r : CertifiedToolImageRecord) (f : IndexFile) (spec platform : String)
    → is_keyed r ≡ true
    → is_empty spec ≡ false
    → is_empty platform ≡ false
    → get_certified_tool_image_record_by_tool_spec_digest_and_platform spec platform
        (upserted (upsert_certified_tool_image_record now r f) f)
      ≡ (if not (is_empty r.image_digest) && has_key spec platform r
          then ok (certified now r)
          else get_certified_tool_image_record_by_tool_spec_digest_and_platform spec platform f)
upserted-get now r f spec platform k n m = go (upsert_certified_tool_image_record now r f) refl
  where
    go :
        (o : Result (Unit {0} × IndexFile))
        → upsert_certified_tool_image_record now r f ≡ o
        → get_certified_tool_image_record_by_tool_spec_digest_and_platform spec platform
            (upserted o f)
          ≡ (if not (is_empty r.image_digest) && has_key spec platform r
              then ok (certified now r)
              else get_certified_tool_image_record_by_tool_spec_digest_and_platform spec platform f)
    go (err e) q = rw (refused now r f q) refl
    go (ok (_, g)) q =
        rw (accepted now r f q)
          (upsert_certified_tool_image_record_lem now r f spec platform k n m q)

-- The lookup by spec digest and platform sees a table that the latest decision overwrites: after any
-- history of upserts of decisions that have both keys, from any index, it answers under a pair of
-- nonempty keys with the last decision for that pair which had an image digest (its zero time made
-- the present), and when the history has none, as it did before. The listing is not a table in this
-- sense.
pub run_upserts-get :
    (rs : List (Time × CertifiedToolImageRecord)) (f : IndexFile) (spec platform : String)
    → All (λ d. is_keyed d.1 ≡ true) rs
    → is_empty spec ≡ false
    → is_empty platform ≡ false
    → get_certified_tool_image_record_by_tool_spec_digest_and_platform spec platform
        (run_upserts rs f)
      ≡ latest_decision spec platform rs
          (get_certified_tool_image_record_by_tool_spec_digest_and_platform spec platform f)
unfolding run_upserts latest_decision
run_upserts-get [] f spec platform k n m = refl
run_upserts-get ((now, r) ∷ rs) f spec platform k n m =
    run_upserts-get rs (upserted (upsert_certified_tool_image_record now r f) f) spec platform k.1 n
      m
    ∙ ap (latest_decision spec platform rs) (upserted-get now r f spec platform k.0 n m)
