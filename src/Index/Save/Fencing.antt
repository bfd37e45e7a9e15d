-- ===== src/Index/Save/Fencing.antt =====
-- The write epochs: a writer whose epoch is not the one in the fence file writes nothing more.
use node_vault.Base.{
  ◌≡◌, refl, sym, ap, ◌≢◌, ◌∙◌, inl, inr, String, true, false, Option, some, arith, Bool-cases, eqb,
}
use node_vault.Index.Errors.{Error, Result, ok, err, writer_fenced, io_failure}
use node_vault.Index.Disk.{
  Fence, Codec, FenceReadsBack, Store, World, Env, M, load, lock_writer, stops_before_rename,
  stops_after_rename,
}
use node_vault.Index.Save.{
  read_fence, unsupported, superseded, verify_epoch, claim_epoch, next_fence, write_fence,
  set_epoch, ensure_writer, save,
}
use node_vault.Index.Save.Quiet.{writes_file}
use node_vault.Index.Save.Outcome.{LoadOutcome, unread, loaded, load-cases}

-- The fence file holds a readable fence.
abbrev pub FenceIs : Codec → World → Fence → Type 0
FenceIs c w f = (b : String) × (w.disk.fence ≡ some b) × (c.decode_fence b ≡ some f)

-- The refusal of an action that changes nothing.
abbrev pub Refuses : {A : Type 0} → M A → World → Type 0
Refuses m w = (e : Error) × (writes_file e ≡ false) × (m w ≡ (err e, w))

ensure_writer-fenced :
    (c : Codec) (env : Env) (w : World) (f : Fence)
    → FenceIs c w f
    → eqb w.store.writer_epoch 0 ≡ false
    → eqb f.epoch w.store.writer_epoch ≡ false
    → Refuses (ensure_writer c env) w
unfolding ensure_writer read_fence verify_epoch superseded
ensure_writer-fenced c env w f (b, p, q) h k = elim (Bool-cases env.fence_read_fails) [
  | inl r ↦ (io_failure, refl, simp r)
  | inr r ↦ elim (Bool-cases (unsupported (some f))) [
    | inl u ↦ (writer_fenced, refl, simp (r, p, q, u))
    | inr u ↦ (writer_fenced, refl, simp (r, p, q, u, h, k))
  ]
]

-- Once a Store has claimed a write epoch and the fence file holds another one, every save of it
-- fails, whatever else happens, and changes neither the directory nor the Store.
pub save-fenced :
    (c : Codec) (env : Env) (w : World) (f : Fence)
    → FenceIs c w f
    → w.store.writer_epoch ≢ 0
    → f.epoch ≢ w.store.writer_epoch
    → (e : Error) × (writes_file e ≡ false) × (save c env w ≡ (err e, w))
unfolding save lock_writer
save-fenced c env w f fence held other = elim (Bool-cases env.lock_fails) [
  | inl h ↦ (io_failure, refl, simp h)
  | inr h ↦
      let at_zero : eqb w.store.writer_epoch 0 ≡ false = ground arith in
      let (e, n, q) = ensure_writer-fenced c env w f fence at_zero (ground arith) in
      (e, n, simp (h, at_zero, q))
]

-- What a claim that succeeds leaves behind: a fence of the next epoch, which is the Store's own.
claim_epoch_lem :
    (c : Codec) (env : Env) (fence : Option Fence) (w : World)
    → (claim_epoch c env fence w).0 ≡ ok tt
    → ((claim_epoch c env fence w).1.disk.fence ≡ some (c.encode_fence (next_fence env.now fence)))
      × ((claim_epoch c env fence w).1.store.writer_epoch ≡ (next_fence env.now fence).epoch)
unfolding claim_epoch write_fence set_epoch
claim_epoch_lem c env fence w h = go (load-cases c env w)
  where
    go :
        LoadOutcome c w.disk.index w (load c env w)
        → ((claim_epoch c env fence w).1.disk.fence
            ≡ some (c.encode_fence (next_fence env.now fence)))
          × ((claim_epoch c env fence w).1.store.writer_epoch ≡ (next_fence env.now fence).epoch)
    go (unread e n q) = ground arith
    go (loaded w' d s q) = elim (Bool-cases (stops_before_rename env.fence_fault)) [
      | inl a ↦ ground arith
      | inr a ↦ elim (Bool-cases (stops_after_rename env.fence_fault)) [
        | inl b ↦ ground arith
        | inr b ↦ (simp (q, a, b), simp (q, a, b))
      ]
    ]

ensure_writer-claim :
    (c : Codec) (env : Env) (w : World) (f : Fence)
    → FenceIs c w f
    → w.store.writer_epoch ≡ 0
    → (ensure_writer c env w).0 ≡ ok tt
    → ensure_writer c env w ≡ claim_epoch c env (some f) w
unfolding ensure_writer read_fence
ensure_writer-claim c env w f (b, p, q) z h = elim (Bool-cases env.fence_read_fails) [
  | inl r ↦ absurd (not_ok {e = io_failure} (simp r) h)
  | inr r ↦ elim (Bool-cases (unsupported (some f))) [
    | inl u ↦ absurd (not_ok {e = writer_fenced} (simp (r, p, q, u)) h)
    | inr u ↦
        let at_zero : eqb w.store.writer_epoch 0 ≡ true = ground arith in simp (r, p, q, u, at_zero)
  ]
]
  where
    not_ok : {e : Error} {r : Result (Unit {0})} → r ≡ err e → r ≡ ok tt → ⊥
    not_ok j k = cc

-- A writer that claims its first epoch shuts out the writer that held the fence until then: from
-- the directory that the claim leaves, with a fence file that reads back, every save of the other Store fails and changes nothing.
pub claim-fences_others :
    (c : Codec) (env later : Env) (w : World) (f : Fence) (other : Store)
    → FenceReadsBack c (next_fence env.now (some f))
    → FenceIs c w f
    → w.store.writer_epoch ≡ 0
    → other.writer_epoch ≢ 0
    → f.epoch ≡ other.writer_epoch
    → (ensure_writer c env w).0 ≡ ok tt
    → let then_on : World = record { store = other; disk = (ensure_writer c env w).1.disk } in
      (e : Error) × (writes_file e ≡ false) × (save c later then_on ≡ (err e, then_on))
unfolding next_fence
claim-fences_others c env later w f other back fence z held same h =
    let claimed : ensure_writer c env w ≡ claim_epoch c env (some f) w =
      ensure_writer-claim c env w f fence z h in
    let left = claim_epoch_lem c env (some f) w (ap (λ r. r.0) (sym claimed) ∙ h) in
    save-fenced c later _ (next_fence env.now (some f))
      (
        c.encode_fence (next_fence env.now (some f)),
        ap (λ r. r.1.disk.fence) claimed ∙ left.0,
        back,
      )
      held (omega arith)
