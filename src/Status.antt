-- ===== src/Status.antt =====
-- google.golang.org/grpc/status, as far as the services answer with it: a code, whose message the
-- model leaves out, or an answer.
use node_vault.Base.{Option, none, some}

pub data Code : Type 0 where
  invalid_argument unavailable not_found failed_precondition already_exists internal : Code

pub data Outcome {ℓ} (A : Type ℓ) : Type ℓ where
  ok : A → Outcome A
  fail : Code → Outcome A

-- What comes after a call that may fail.
infixl 5 ◌>>=◌ ◌>>◌
abbrev pub ◌>>=◌ {ℓ κ} : {A : Type ℓ} {B : Type κ} → Outcome A → (A → Outcome B) → Outcome B
fail code >>= next = fail code
ok a >>= next = next a

abbrev pub ◌>>◌ {ℓ} : {B : Type ℓ} → Outcome (Unit {0}) → Outcome B → Outcome B
first >> second = first >>= λ _. second

-- The answer, when there is one.
abbrev pub answer {ℓ} : {A : Type ℓ} → Outcome A → Option A
answer (ok a) = some a
answer (fail code) = none
