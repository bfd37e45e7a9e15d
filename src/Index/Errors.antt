-- ===== src/Index/Errors.antt =====
-- pkg/index/store.go: the sentinel errors, and the results and actions that carry them.
use node_vault.Base.{◌≡◌, refl, ◌⊎◌, inl, inr, Bool, true, false}

-- One constructor for each error that a caller tells apart with `errors.Is`, and for each kind of
-- the others: `already_exists`, `empty_key`, `incomplete_operation`, `inconsistent` and `bad_basis`
-- for the plain texts, `io_failure`, `parse_failure` and `newer_schema` for the file.
-- `reloaded` is ErrToolFunctionWriterFenced that also wraps errIndexReloaded.
pub data Error : Type 0 where
  not_found entry_exists duplicate_record record_conflict : Error
  invalid_transition invalid_lifecycle_transition : Error
  request_conflict request_unknown_legacy identity_ambiguous envelope_conflict : Error
  already_exists empty_key incomplete_operation inconsistent bad_basis : Error
  writer_fenced reloaded persisted_not_durable : Error
  io_failure parse_failure newer_schema : Error

pub data Result {ℓ} (A : Type ℓ) : Type ℓ where
  ok : A → Result A
  err : Error → Result A

abbrev pub is_ok {ℓ} : {A : Type ℓ} → Result A → Bool
is_ok (ok a) = true
is_ok (err e) = false

-- What comes after a call that may refuse, on its answer.
infixl 5 ◌>>=◌ ◌>>◌
abbrev pub ◌>>=◌ {ℓ κ} : {B : Type ℓ} {C : Type κ} → Result B → (B → Result C) → Result C
err reason >>= next = err reason
ok answer >>= next = next answer

abbrev pub ◌>>◌ {ℓ} : {C : Type ℓ} → Result (Unit {0}) → Result C → Result C
first >> second = first >>= λ _. second

pub ok-injective {ℓ} : {A : Type ℓ} (a b : A) → ok a ≡ ok b → a ≡ b
ok-injective a b h = cc

pub Result-cases {ℓ} :
    {A : Type ℓ} (r : Result A) → ((a : A) × (r ≡ ok a)) ⊎ ((e : Error) × (r ≡ err e))
Result-cases (ok a) = inl (a, refl)
Result-cases (err e) = inr (e, refl)
