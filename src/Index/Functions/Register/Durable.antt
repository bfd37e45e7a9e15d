-- ===== src/Index/Functions/Register/Durable.antt =====
-- What an answer of RegisterToolFunctionAtomic says of the file.
use node_vault.Base.{
  ◌≡◌, refl, ◌⊎◌, inl, inr, sym, ◌∙◌, ap, Bool, true, false, Option, some, arith, Bool-cases,
  if◌then◌else◌,
}
use node_vault.Index.Schema.{
  IndexFile, RegisteredToolFunction, ToolFunctionPresentationRevision, ToolFunctionOperation,
  complete,
}
use node_vault.Index.Errors.{Error, Result, ok, err, io_failure}
use node_vault.Index.Disk.{Codec, Env, World, ◌>>=◌, ◌>>◌, with_idx, persist_locked, lock_writer, M}
use node_vault.Index.Save.{begin_write}
use node_vault.Index.Save.Quiet.{reaches_file}
use node_vault.Index.Save.Outcome.{stamped, persisted, persist-cases}
use node_vault.Index.Functions.{
  EnvelopeOf, Plan, replays, refuses, persists, plan_register, find_tool_function,
}
use node_vault.Index.Functions.Answers.{plan_register-replays, plan_register-keeps_own}
use node_vault.Index.Functions.Register.{
  repair, repaired, settle_persist, carry_out, decide_and_write, register_tool_function_atomic,
  with_committed,
}

-- What a success says of the Store and its file.
abbrev pub Acknowledged : Codec → RegisteredToolFunction → Bool → World → Type 0
Acknowledged c r new w =
    (w.store.durability_uncertain ≡ false)
    × (find_tool_function r.cas_hash w.store.idx ≡ ok r)
    × ((new ≡ false) ⊎ (w.disk.index ≡ some (c.encode_index w.store.idx)))

-- The answer of a carried-out plan: it came from a replay and changed nothing, or the whole index of
-- the plan is in the file and in memory.
pub carry_out-ok :
    (c : Codec) (env : Env) (p : Plan) (w : World) {r : RegisteredToolFunction} {new : Bool}
    → (carry_out c env p w).0 ≡ ok (r, new)
    → ((p ≡ replays r) × (new ≡ false) × ((carry_out c env p w).1 ≡ w))
      ⊎ ((f : IndexFile) × (p ≡ persists r new f)
          × ((carry_out c env p w).1 ≡ with_committed (persisted c (with_idx f w))))
unfolding carry_out settle_persist
carry_out-ok c env (replays x) w {r} {new} h = inl (ground (h, arith), ground (h, arith), refl)
carry_out-ok c env (refuses e) w h = cc
carry_out-ok c env (persists x n f) w {r} {new} h =
    elim (persist-cases c env.persist_fault (with_idx f w)) [
      | inl k ↦ absurd (failed (rw k at h))
      | inr (ok tt, m, k) ↦ inr (f, answered (rw k at h), rw k refl)
      | inr (err z, m, k) ↦ absurd (unsure z m (rw k at h))
    ]
  where
    failed :
        (settle_persist w.store.idx (x, n) (err io_failure, with_idx (stamped f) w)).0 ≡ ok (r, new)
        → ⊥
    failed h = cc

    answered :
        (settle_persist w.store.idx (x, n) (ok tt, persisted c (with_idx f w))).0 ≡ ok (r, new)
        → persists x n f ≡ persists r new f
    answered h = ground arith

    unsure :
        (z : Error)
        → reaches_file {A = Unit {0}} (err z) ≡ true
        → (settle_persist w.store.idx (x, n) (err z, persisted c (with_idx f w))).0 ≡ ok (r, new)
        → ⊥
    unsure z m h = ground arith

-- The steps of an action that gave an answer.
bind-ok :
    {A B : Type 0} (m : M A) (g : A → M B) (w : World) (b : B)
    → ((m >>= g) w).0 ≡ ok b
    → (a : A) × (w' : World) × (m w ≡ (ok a, w')) × ((g a w').0 ≡ ok b) × ((m >>= g) w ≡ g a w')
bind-ok {A} {B} m g w b h = go (m w) refl
  where
    go :
        (x : Result A × World)
        → m w ≡ x
        → (a : A) × (w' : World) × (m w ≡ (ok a, w')) × ((g a w').0 ≡ ok b) × ((m >>= g) w ≡ g a w')
    go (ok a, w') q = (a, w', q, rw q at h, rw q refl)
    go (err e, w') q = absurd (let h' = rw q at h in cc)

repair-clears :
    (c : Codec) (env : Env) (w w' : World)
    → repair c env w ≡ (ok tt, w')
    → w'.store.durability_uncertain ≡ false
unfolding repair
repair-clears c env w w' h = go w.store.durability_uncertain refl h
  where
    failed : repaired (err io_failure, with_idx (stamped w.store.idx) w) ≡ (ok tt, w') → ⊥
    failed h = let e = ap (λ x. x.0) h in cc

    fixed :
        (r : Result (Unit {0}))
        → repaired (r, persisted c w) ≡ (ok tt, w')
        → w'.store.durability_uncertain ≡ false
    fixed (ok tt) h = ap (λ x. x.1.store.durability_uncertain) (sym h)
    fixed (err e) h = absurd (let e = ap (λ x. x.0) h in cc)

    go :
        (b : Bool)
        → w.store.durability_uncertain ≡ b
        → (if b then repaired (persist_locked c env.repair_fault w) else (ok tt, w)) ≡ (ok tt, w')
        → w'.store.durability_uncertain ≡ false
    go true k h = elim (persist-cases c env.repair_fault w) [
      | inl q ↦ absurd (failed (ap repaired (sym q) ∙ h))
      | inr (r, m, q) ↦ fixed r (ap repaired (sym q) ∙ h)
    ]
    go false k h = ap (λ x. x.1.store.durability_uncertain) (sym h) ∙ k

decide-ok :
    (envelope_of : EnvelopeOf) (c : Codec) (env : Env) (op : ToolFunctionOperation)
    (rec : RegisteredToolFunction) (rev : Option ToolFunctionPresentationRevision) (w : World)
    {r : RegisteredToolFunction} {new : Bool}
    → w.store.durability_uncertain ≡ false
    → (decide_and_write envelope_of c env op rec rev w).0 ≡ ok (r, new)
    → Acknowledged c r new (decide_and_write envelope_of c env op rec rev w).1
unfolding decide_and_write find_tool_function
decide-ok envelope_of c env op rec rev w {r} {new} u h =
    elim (carry_out-ok c env (plan_register envelope_of env.now op rec rev w.store.idx) w h) [
      | inl (p, n, q) ↦
          rw q (u, plan_register-replays envelope_of env.now op rec rev w.store.idx p, inl n)
      | inr (f, p, q) ↦
          rw q (u, plan_register-keeps_own envelope_of env.now op rec rev w.store.idx p, inr refl)
    ]

-- No answer of success stands on a rename that may not be durable: when RegisterToolFunctionAtomic
-- succeeds, no durability repair is pending, the record that it answers with is found in memory
-- under its CasHash, and for a new record the file holds the encoding of that very memory.
pub register_tool_function_atomic-ok :
    (envelope_of : EnvelopeOf) (c : Codec) (env : Env) (op : ToolFunctionOperation)
    (rec : RegisteredToolFunction) (rev : Option ToolFunctionPresentationRevision) (w : World)
    (r : RegisteredToolFunction) (new : Bool)
    → (register_tool_function_atomic envelope_of c env op rec rev w).0 ≡ ok (r, new)
    → Acknowledged c r new (register_tool_function_atomic envelope_of c env op rec rev w).1
unfolding register_tool_function_atomic
register_tool_function_atomic-ok envelope_of c env op rec rev w r new h =
    elim (Bool-cases (complete op)) [
      | inl k ↦ rw k (locked (rw k at h))
      | inr k ↦ absurd (let e = rw k at h in cc)
    ]
  where
    rest : M (RegisteredToolFunction × Bool)
    rest = decide_and_write envelope_of c env op rec rev

    locked :
        ((lock_writer env >> (begin_write c env >> (repair c env >> rest))) w).0 ≡ ok (r, new)
        → Acknowledged c r new
            ((lock_writer env >> (begin_write c env >> (repair c env >> rest))) w).1
    locked h =
        let (_, w1, p, h1, q1) =
          bind-ok (lock_writer env) (λ _. begin_write c env >> (repair c env >> rest)) w (r, new)
            h in
        let (_, w2, p2, h2, q2) =
          bind-ok (begin_write c env) (λ _. repair c env >> rest) w1 (r, new) h1 in
        let (_, w3, p3, h3, q3) = bind-ok (repair c env) (λ _. rest) w2 (r, new) h2 in
        rw (q1 ∙ q2 ∙ q3)
          (decide-ok envelope_of c env op rec rev w3 (repair-clears c env w2 w3 p3) h3)
