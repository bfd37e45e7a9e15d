-- ===== src/BuildState/Retry.antt =====
-- A retried submission gets the build that it made.
use node_vault.Base.{
  Time, ◌≡◌, refl, sym, ◌∙◌, ap, inl, inr, ◌⊎◌, String, Bool, true, false, Option, none, some, ◌==◌,
  is_empty, snoc, eq_iff, eq_refl, find_first-snoc, if◌then◌else◌, Bool-cases, Option-cases,
}
use node_vault.BuildState.{
  Build, BuildError, answers, fails, Table, has_id, get, create, create_or_get, created_or,
  existing, new_build, millis, primary_key_taken, other_tool_spec, no_build_id, no_digest,
  storage_failure,
}

-- A creation either makes the row, or is refused and changes nothing.
create-cases :
    (fault : Bool) (id digest : String) (now : Time) (t : Table)
    → ((create fault id digest now t
          ≡ (answers (new_build id digest now), snoc t (new_build id digest (millis now))))
        × (get id t ≡ none))
      ⊎ ((e : BuildError) × (create fault id digest now t ≡ (fails e, t)))
unfolding create
create-cases fault id digest now t = elim (Bool-cases (is_empty id)) [
  | inl q ↦ inr (no_build_id, rw q refl)
  | inr q ↦ elim (Bool-cases (is_empty digest)) [
    | inl k ↦ inr (no_digest, rw (q, k) refl)
    | inr k ↦ elim (Bool-cases fault) [
      | inl m ↦ inr (storage_failure, rw (q, k, m) refl)
      | inr m ↦ elim (Option-cases (get id t)) [
        | inl n ↦ inl (rw (q, k, m, n, create) refl, n)
        | inr (b, n) ↦ inr (primary_key_taken, rw (q, k, m, n, create) refl)
      ]
    ]
  ]
]

-- A build that is there is answered, or refused for another spec.
retried :
    (fault : Bool) (id digest : String) (now : Time) (t : Table) (row : Build)
    → get id t ≡ some row
    → create_or_get fault false id digest now t
      ≡ (if row.tool_spec_digest == digest then answers (row, false) else fails other_tool_spec, t)
unfolding create_or_get
retried fault id digest now t row h = elim (create-cases fault id digest now t) [
  | inl (q, n) ↦ absurd (clash (sym n ∙ h))
  | inr (e, q) ↦ rw (q, h, created_or, existing) refl
]
  where
    clash : none ≡ some row → ⊥
    clash k = cc

made :
    (id : String) (x : Build) (t : Table)
    → x.build_id ≡ id
    → get id t ≡ none
    → get id (snoc t x) ≡ some x
unfolding get
made id x t e h = rw (find_first-snoc (has_id id) t x, h, e, eq_refl id) refl

refused : {A : Type 0} {z : BuildError} {a : A} → fails z ≡ answers a → ⊥
refused m = cc

first-row :
    (fault get_fault : Bool) (id digest : String) (now : Time) (t : Table) {b : Build} {new : Bool}
    → (create_or_get fault get_fault id digest now t).0 ≡ answers (b, new)
    → (row : Build) × (get id (create_or_get fault get_fault id digest now t).1 ≡ some row)
      × (row.tool_spec_digest ≡ digest)
unfolding create_or_get
first-row fault get_fault id digest now t {b} {new} h = elim (create-cases fault id digest now t) [
  | inl (q, n) ↦ (
    new_build id digest (millis now),
    rw q (made id (new_build id digest (millis now)) t refl n),
    refl,
  )
  | inr (e, q) ↦ rw q (
      there e get_fault (get id t) refl
        (ap (λ r. (created_or id digest get_fault r).0) (sym q) ∙ h))
]
  where
    there :
        (e : BuildError) (g : Bool) (o : Option Build)
        → get id t ≡ o
        → (if g then fails e else existing e digest o) ≡ answers (b, new)
        → (row : Build) × (get id t ≡ some row) × (row.tool_spec_digest ≡ digest)
    there e true o k m = absurd (refused m)
    there e false none k m = absurd (refused m)
    there e false (some row) k m = elim (Bool-cases (row.tool_spec_digest == digest)) [
      | inl same ↦ (row, k, (eq_iff row.tool_spec_digest digest).0 same)
      | inr other ↦ absurd (refused (rw other at m))
    ]

-- Submitting a build again is idempotent: once CreateOrGet has answered for a build ID, every later
-- CreateOrGet under that ID, whose read the database serves, changes no row; it answers with the
-- stored row, not created, when the spec digest is the same and refuses another digest.
pub create_or_get-again :
    (fault get_fault : Bool) (id digest : String) (now : Time) (t : Table) (b : Build) (new : Bool)
    (later_fault : Bool) (digest' : String) (later : Time)
    → (create_or_get fault get_fault id digest now t).0 ≡ answers (b, new)
    → (row : Build) × (get id (create_or_get fault get_fault id digest now t).1 ≡ some row)
      × (row.tool_spec_digest ≡ digest)
      × (create_or_get later_fault false id digest' later
            (create_or_get fault get_fault id digest now t).1
          ≡ (
            if row.tool_spec_digest == digest' then answers (row, false) else fails other_tool_spec,
            (create_or_get fault get_fault id digest now t).1,
          ))
create_or_get-again fault get_fault id digest now t b new later_fault digest' later h =
    let (row, at, own) = first-row fault get_fault id digest now t h in
    (row, at, own, retried later_fault id digest' later _ row at)
