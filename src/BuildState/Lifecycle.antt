-- ===== src/BuildState/Lifecycle.antt =====
-- A build that reached a terminal status keeps it.
use node_vault.Base.{
  Time, ◌≡◌, refl, sym, ◌∙◌, ap, inl, inr, String, Bool, true, false, none, some, List, [], ◌∷◌,
  map, snoc, find_first, find_first-snoc, if◌then◌else◌, arith, is_empty, ◌⊎◌, eq_iff,
  find_first-true, Bool-cases, Option-cases,
}
use node_vault.BuildState.{
  Status, Build, Reply, answers, fails, Table, terminal, has_id, get, update, create, create_or_get,
  created_or, transition, set_columns, set_artifact, set_referrer, interrupt, recover_interrupted,
  millis, moved_to, reread, new_build,
}

-- The writes on the table.
pub data BuildCall : Type 0 where
  creates : Bool → String → String → Time → BuildCall
  creates_or_gets : Bool → Bool → String → String → Time → BuildCall
  transitions : Bool → String → Status → String → Time → BuildCall
  sets_artifact : Bool → String → String → String → Time → BuildCall
  sets_referrer : Bool → String → String → String → Time → BuildCall
  recovers : Bool → Time → BuildCall

unfoldable pub run_build : BuildCall → Table → Table
run_build (creates fault id digest now) t = (create fault id digest now t).1
run_build (creates_or_gets fault get_fault id digest now) t =
    (create_or_get fault get_fault id digest now t).1
run_build (transitions fault id next reason now) t = (transition fault id next reason now t).1
run_build (sets_artifact fault id ref digest now) t = (set_artifact fault id ref digest now t).1
run_build (sets_referrer fault id digest health now) t =
    (set_referrer fault id digest health now t).1
run_build (recovers fault now) t = (recover_interrupted fault now t).1

unfoldable pub run_builds : List BuildCall → Table → Table
run_builds [] t = t
run_builds (c ∷ cs) t = run_builds cs (run_build c t)

-- What is settled with the terminal status.
abbrev pub verdict : Build → String × String × Status × String × Time
verdict b = (b.build_id, b.tool_spec_digest, b.status, b.failure_reason, b.requested_at)

find_first-map :
    (p : Build → Bool) (g : Build → Build) (bs : Table)
    → ((b : Build) → p (g b) ≡ p b)
    → find_first p (map g bs) ≡ (elim (find_first p bs) [ none ↦ none | some b ↦ some (g b) ])
unfolding find_first
find_first-map p g [] h = refl
find_first-map p g (b ∷ bs) h = ground (arith, h b, find_first-map p g bs h)

abbrev Settled : String → Build → Table → Type 0
Settled id b t = (b' : Build) × (get id t ≡ some b') × (verdict b' ≡ verdict b)

map-Settled :
    (id : String) (g : Build → Build) (b : Build) (t : Table)
    → ((x : Build) → has_id id (g x) ≡ has_id id x)
    → verdict (g b) ≡ verdict b
    → get id t ≡ some b
    → Settled id b (map g t)
unfolding get
map-Settled id g b t keeps same h = (g b, find_first-map (has_id id) g t keeps ∙ rw h refl, same)

reread-table : (id : String) (t : Table) → (reread id t).1 ≡ t
reread-table id t = elim (Option-cases (get id t)) [
  | inl q ↦ rw (q, reread) refl
  | inr (b, q) ↦ rw (q, reread) refl
]

update-Settled :
    (id k : String) (g : Build → Build) (b : Build) (t : Table)
    → ((x : Build) → (g x).build_id ≡ x.build_id)
    → (has_id k b ≡ true → verdict (g b) ≡ verdict b)
    → get id t ≡ some b
    → Settled id b (update k g t)
unfolding update
update-Settled id k g b t keeps same h = elim (Bool-cases (has_id k b)) [
  | inl q ↦
      map-Settled id (λ x. if has_id k x then g x else x) b t (λ x. ground (arith, keeps x))
        (rw q (same q)) h
  | inr q ↦
      map-Settled id (λ x. if has_id k x then g x else x) b t (λ x. ground (arith, keeps x))
        (rw q refl) h
]

snoc-Settled : (id : String) (x b : Build) (t : Table) → get id t ≡ some b → Settled id b (snoc t x)
unfolding get
snoc-Settled id x b t h = (b, find_first-snoc (has_id id) t x ∙ rw h refl, refl)

-- The table after each operation.
create-cases :
    (fault : Bool) (id digest : String) (now : Time) (t : Table)
    → ((create fault id digest now t).1 ≡ t)
      ⊎ ((x : Build) × ((create fault id digest now t).1 ≡ snoc t x))
unfolding create
create-cases fault id digest now t = elim (Bool-cases (is_empty id)) [
  | inl q ↦ inl (rw q refl)
  | inr q ↦ elim (Bool-cases (is_empty digest)) [
    | inl k ↦ inl (rw (q, k) refl)
    | inr k ↦ elim (Bool-cases fault) [
      | inl m ↦ inl (rw (q, k, m) refl)
      | inr m ↦ elim (Option-cases (get id t)) [
        | inl n ↦ inr (new_build id digest (millis now), rw (q, k, m, n, create) refl)
        | inr (b, n) ↦ inl (rw (q, k, m, n, create) refl)
      ]
    ]
  ]
]

create-Settled :
    (fault : Bool) (k digest : String) (now : Time) (id : String) (b : Build) (t : Table)
    → get id t ≡ some b
    → Settled id b (create fault k digest now t).1
create-Settled fault k digest now id b t h = elim (create-cases fault k digest now t) [
  | inl q ↦ rw q (b, h, refl)
  | inr (x, q) ↦ rw q (snoc-Settled id x b t h)
]

created_or-table :
    (id digest : String) (f : Bool) (r : Reply Build × Table) → (created_or id digest f r).1 ≡ r.1
created_or-table id digest f (answers b, t) = refl
created_or-table id digest f (fails e, t) = refl

set_columns-Settled :
    (fault : Bool) (k : String) (g : Build → Build) (id : String) (b : Build) (t : Table)
    → ((x : Build) → verdict (g x) ≡ verdict x)
    → get id t ≡ some b
    → Settled id b (set_columns fault k g t).1
unfolding set_columns
set_columns-Settled fault k g id b t same h = elim (Bool-cases (is_empty k)) [
  | inl q ↦ rw q (b, h, refl)
  | inr q ↦ elim (Bool-cases fault) [
    | inl m ↦ rw (q, m) (b, h, refl)
    | inr m ↦
        rw (q, m, reread-table k (update k g t))
          (update-Settled id k g b t (λ x. ap (λ v. v.0) (same x)) (λ _. same b) h)
  ]
]

same_row :
    (id k : String) (b : Build) (t : Table)
    → get id t ≡ some b
    → has_id k b ≡ true
    → get k t ≡ some b
unfolding get
same_row id k b t h mine =
    let own : b.build_id ≡ id = (eq_iff b.build_id id).0 (find_first-true (has_id id) t b h) in
    let named : b.build_id ≡ k = (eq_iff b.build_id k).0 mine in
    ap (λ s. find_first (has_id s) t) (sym named ∙ own) ∙ h

some-injective : (a b : Build) → some a ≡ some b → a ≡ b
some-injective a b h = cc

transition-Settled :
    (fault : Bool) (k : String) (to : Status) (reason : String) (now : Time) (id : String)
    (b : Build) (t : Table)
    → terminal b.status ≡ true
    → get id t ≡ some b
    → Settled id b (transition fault k to reason now t).1
unfolding transition
transition-Settled fault k to reason now id b t d h = elim (Bool-cases (is_empty k)) [
  | inl q ↦ rw q (b, h, refl)
  | inr q ↦ elim (Bool-cases fault) [
    | inl m ↦ rw (q, m) (b, h, refl)
    | inr m ↦ elim (Option-cases (get k t)) [
      | inl n ↦ rw (q, m, n, transition) (b, h, refl)
      | inr (c, n) ↦ elim (Bool-cases (terminal c.status)) [
        | inl live ↦ rw (q, m, n, transition, live) (b, h, refl)
        | inr live ↦
            rw (q, m, n, transition, live, reread-table k (update k (moved_to to reason now) t))
              (update-Settled id k (moved_to to reason now) b t (λ x. refl)
                (λ mine. absurd (clash c n live mine)) h)
      ]
    ]
  ]
]
  where
    clash : (c : Build) → get k t ≡ some c → terminal c.status ≡ false → has_id k b ≡ true → ⊥
    clash c n live mine =
        let row : get k t ≡ some b = same_row id k b t h mine in
        let c_is : b ≡ c = some-injective b c (sym row ∙ n) in
        let ended : terminal c.status ≡ true = ap (λ x. terminal x.status) (sym c_is) ∙ d in cc

pub interrupt-keeps : (now : Time) (b : Build) → terminal b.status ≡ true → interrupt now b ≡ b
interrupt-keeps now b d = rw d refl

run_build-Settled :
    (c : BuildCall) (id : String) (b : Build) (t : Table)
    → terminal b.status ≡ true
    → get id t ≡ some b
    → Settled id b (run_build c t)
unfolding run_build create_or_get set_artifact set_referrer recover_interrupted
run_build-Settled (creates fault k digest now) id b t d h =
    create-Settled fault k digest now id b t h
run_build-Settled (creates_or_gets fault get_fault k digest now) id b t d h =
    rw (created_or-table k digest get_fault (create fault k digest now t))
      (create-Settled fault k digest now id b t h)
run_build-Settled (transitions fault k to reason now) id b t d h =
    transition-Settled fault k to reason now id b t d h
run_build-Settled (sets_artifact fault k ref digest now) id b t d h =
    set_columns-Settled fault k _ id b t (λ x. refl) h
run_build-Settled (sets_referrer fault k digest health now) id b t d h =
    set_columns-Settled fault k _ id b t (λ x. refl) h
run_build-Settled (recovers fault now) id b t d h = elim (Bool-cases fault) [
  | inl q ↦ rw q (b, h, refl)
  | inr q ↦ rw q (
      map-Settled id (interrupt now) b t (λ x. ground arith) (ap verdict (interrupt-keeps now b d))
        h)
]

-- A build that reached a terminal status is settled: over any history of creations, retries,
-- transitions, artifact and referrer updates and restart recoveries, each of which the database may
-- refuse, its row stays, with its spec digest, status, failure reason and request time.
pub run_builds-terminal :
    (cs : List BuildCall) (id : String) (b : Build) (t : Table)
    → terminal b.status ≡ true
    → get id t ≡ some b
    → (b' : Build) × (get id (run_builds cs t) ≡ some b') × (verdict b' ≡ verdict b)
unfolding run_builds
run_builds-terminal [] id b t d h = (b, h, refl)
run_builds-terminal (c ∷ cs) id b t d h =
    let (b1, h1, v1) = run_build-Settled c id b t d h in
    let (b2, h2, v2) =
      run_builds-terminal cs id b1 (run_build c t) (ap (λ v. terminal v.2) v1 ∙ d) h1 in
    (b2, h2, v2 ∙ v1)
