-- ===== src/Index/Save/Quiet.antt =====
-- Actions that change nothing: the lock, the reads and the checks that go before a write.
use node_vault.Base.{
  ◌≡◌, refl, inl, inr, Bool, true, false, Option, none, some, arith, eqb, Bool-cases, Option-cases,
}
use node_vault.Index.Errors.{
  Error, Result, ok, err, persisted_not_durable, io_failure, parse_failure, writer_fenced, reloaded,
}
use node_vault.Index.Disk.{Fence, Codec, World, Env, M, ◌>>=◌, lock_writer}
use node_vault.Index.Save.{
  read_fence, read_schema, unsupported, superseded, downgraded, verify_epoch, ensure_writer,
  check_epoch, refuse_if, verify_or_claim,
}

-- The error, or the result, says that the content is in the file.
abbrev pub writes_file : Error → Bool
writes_file persisted_not_durable = true
writes_file _ = false

abbrev pub reaches_file {ℓ} : {A : Type ℓ} → Result A → Bool
reaches_file (ok a) = true
reaches_file (err e) = writes_file e

-- The error says that the Store's memory follows the file: written, or read again.
abbrev pub changes_memory : Error → Bool
changes_memory persisted_not_durable = true
changes_memory reloaded = true
changes_memory _ = false

pub unwritten : (e : Error) → changes_memory e ≡ false → writes_file e ≡ false
unwritten e h = ground arith

-- An action that, in this world, changes nothing, whether it gives a value or refuses.
pub data QuietAt {A : Type 0} (m : M A) (w : World) : Type 0 where
  gives : (a : A) → m w ≡ (ok a, w) → QuietAt m w
  fails : (e : Error) → changes_memory e ≡ false → m w ≡ (err e, w) → QuietAt m w

pub bind-QuietAt :
    {A B : Type 0} (m : M A) (f : A → M B) (w : World)
    → QuietAt m w
    → ((a : A) → QuietAt (f a) w)
    → QuietAt (m >>= f) w
bind-QuietAt {A} {B} m f w (gives a p) k = next (k a)
  where
    next : QuietAt (f a) w → QuietAt (m >>= f) w
    next (gives b q) = gives b (rw p q)
    next (fails e n q) = fails e n (rw p q)
bind-QuietAt m f w (fails e n p) k = fails e n (rw p)

pub lock_writer-QuietAt : (env : Env) (w : World) → QuietAt (lock_writer env) w
unfolding lock_writer
lock_writer-QuietAt env w = elim (Bool-cases env.lock_fails) [
  | inl h ↦ fails io_failure refl (rw h)
  | inr h ↦ gives tt (rw h)
]

refuse_if-QuietAt : (bad : Bool) (w : World) → QuietAt (refuse_if bad) w
refuse_if-QuietAt true w = fails writer_fenced refl refl
refuse_if-QuietAt false w = gives tt refl

read_fence-QuietAt : (c : Codec) (env : Env) (w : World) → QuietAt (read_fence c env) w
unfolding read_fence
read_fence-QuietAt c env w = elim (Bool-cases env.fence_read_fails) [
  | inl h ↦ fails io_failure refl (rw h)
  | inr h ↦ elim (Option-cases w.disk.fence) [
    | inl p ↦ gives none (simp (h, p))
    | inr (b, p) ↦ elim (Option-cases (c.decode_fence b)) [
      | inl q ↦ fails parse_failure refl (simp (h, p, q))
      | inr (f, q) ↦ gives (some f) (simp (h, p, q))
    ]
  ]
]

read_schema-QuietAt : (c : Codec) (env : Env) (w : World) → QuietAt (read_schema c env) w
unfolding read_schema
read_schema-QuietAt c env w = elim (Bool-cases env.schema_read_fails) [
  | inl h ↦ fails io_failure refl (rw h)
  | inr h ↦ elim (Option-cases w.disk.index) [
    | inl p ↦ gives none (simp (h, p))
    | inr (b, p) ↦ elim (Option-cases (c.decode_schema b)) [
      | inl q ↦ fails parse_failure refl (simp (h, p, q))
      | inr (v, q) ↦ gives (some v) (simp (h, p, q))
    ]
  ]
]

verify_epoch-QuietAt :
    (c : Codec) (env : Env) (fence : Option Fence) (w : World)
    → QuietAt (verify_epoch c env fence) w
unfolding verify_epoch
verify_epoch-QuietAt c env fence w = elim (Bool-cases (superseded w.store.writer_epoch fence)) [
  | inl h ↦ fails writer_fenced refl (rw h)
  | inr h ↦ elim (Bool-cases w.store.writer_committed) [
    | inl k ↦ next h k (
        bind-QuietAt (read_schema c env) _ w (read_schema-QuietAt c env w)
          (λ v. refuse_if-QuietAt (downgraded v) w))
    | inr k ↦ gives tt (simp (h, k))
  ]
]
  where
    next :
        superseded w.store.writer_epoch fence ≡ false
        → w.store.writer_committed ≡ true
        → QuietAt (read_schema c env >>= λ v. refuse_if (downgraded v)) w
        → QuietAt (verify_epoch c env fence) w
    next h k (gives a q) = gives a (simp (h, k) q)
    next h k (fails e n q) = fails e n (simp (h, k) q)

-- A writer that holds an epoch checks it and changes nothing.
pub ensure_writer-QuietAt :
    (c : Codec) (env : Env) (w : World)
    → eqb w.store.writer_epoch 0 ≡ false
    → QuietAt (ensure_writer c env) w
unfolding ensure_writer
ensure_writer-QuietAt c env w h =
    bind-QuietAt (read_fence c env) _ w (read_fence-QuietAt c env w) (λ fence.
      bind-QuietAt (refuse_if (unsupported fence)) _ w (refuse_if-QuietAt _ w)
        (λ _. verified fence (verify_epoch-QuietAt c env fence w)))
  where
    verified :
        (fence : Option Fence)
        → QuietAt (verify_epoch c env fence) w
        → QuietAt (verify_or_claim c env fence) w
    verified fence (gives a q) = gives a (rw h q)
    verified fence (fails e n q) = fails e n (rw h q)

pub check_epoch-QuietAt : (c : Codec) (env : Env) (w : World) → QuietAt (check_epoch c env) w
check_epoch-QuietAt c env w = elim (Bool-cases (eqb w.store.writer_epoch 0)) [
  | inl h ↦ gives tt (rw h)
  | inr h ↦ held h (ensure_writer-QuietAt c env w h)
]
  where
    held :
        eqb w.store.writer_epoch 0 ≡ false
        → QuietAt (ensure_writer c env) w
        → QuietAt (check_epoch c env) w
    held h (gives a q) = gives a (rw h q)
    held h (fails e n q) = fails e n (rw h q)
