-- ===== src/BuildState.antt =====
-- pkg/buildstate/store.go: the table of builds, and the operations on it. The rows are a list whose
-- primary key is `build_id`, which the INSERT respects. A statement that the database refuses is
-- `storage_failure` and changes nothing. A column of times keeps whole milliseconds.
pub mod Lifecycle
pub mod Recovery
pub mod Retry
mod Examples
use node_vault.Base.{
  ℕ, suc, ◌*◌, ◌/◌, Time, String, Bool, true, false, Option, none, some, List, [], ◌∷◌, ◌==◌,
  is_empty, map, find_first, snoc, if◌then◌else◌,
}

pub data Status : Type 0 where
  requested resolving building pushing succeeded failed interrupted : Status

-- `Record`
pub record Build : Type 0 where
  pub build_id : String
  pub tool_spec_digest : String
  pub status : Status
  pub failure_reason : String
  pub image_ref : String
  pub image_digest : String
  pub spec_referrer_digest : String
  pub integrity_health : String
  pub requested_at : Time
  pub updated_at : Time

pub data BuildError : Type 0 where
  no_such_build already_terminal no_build_id no_digest : BuildError
  primary_key_taken other_tool_spec storage_failure : BuildError

pub data Reply (A : Type 0) : Type 0 where
  answers : A → Reply A
  fails : BuildError → Reply A

abbrev pub Table : Type 0
Table = List Build

-- `time.UnixMilli(t.UnixMilli())`
abbrev pub millis : Time → Time
millis t = t / 1000000 * 1000000

-- `Terminal`
abbrev pub terminal : Status → Bool
terminal Status.succeeded = true
terminal Status.failed = true
terminal Status.interrupted = true
terminal _ = false

abbrev pub has_id : String → Build → Bool
has_id id b = b.build_id == id

-- `Get`: the row, as it is stored.
unfoldable pub get : String → Table → Option Build
get id t = find_first (has_id id) t

-- `UPDATE build_state SET ... WHERE build_id = ?`
unfoldable pub update : String → (Build → Build) → Table → Table
update id g t = map (λ b. if has_id id b then g b else b) t

abbrev pub new_build : String → String → Time → Build
new_build id digest now = record {
  build_id = id;
  tool_spec_digest = digest;
  status = Status.requested;
  failure_reason = "";
  image_ref = "";
  image_digest = "";
  spec_referrer_digest = "";
  integrity_health = "";
  requested_at = now;
  updated_at = now;
}

-- `Create`: the answer has the time as it was given, the row has its milliseconds.
unfoldable pub create : Bool → String → String → Time → Table → Reply Build × Table
unfolding get
create fault id digest now t =
    if is_empty id
    then (fails no_build_id, t)
    else if is_empty digest
    then (fails no_digest, t)
    else if fault
    then (fails storage_failure, t)
    else elim (get id t) [
      | some _ ↦ (fails primary_key_taken, t)
      | none ↦ (answers (new_build id digest now), snoc t (new_build id digest (millis now)))
    ]

-- What `CreateOrGet` makes of the existing row.
abbrev pub existing : BuildError → String → Option Build → Reply (Build × Bool)
existing e digest none = fails e
existing e digest (some b) =
    if b.tool_spec_digest == digest then answers (b, false) else fails other_tool_spec

abbrev pub created_or : String → String → Bool → Reply Build × Table → Reply (Build × Bool) × Table
created_or id digest get_fault (answers b, t) = (answers (b, true), t)
created_or id digest get_fault (fails e, t) =
    (if get_fault then fails e else existing e digest (get id t), t)

-- `CreateOrGet`
unfoldable pub create_or_get :
    Bool → Bool → String → String → Time → Table → Reply (Build × Bool) × Table
unfolding create
create_or_get fault get_fault id digest now t =
    created_or id digest get_fault (create fault id digest now t)

abbrev pub moved_to : Status → String → Time → Build → Build
moved_to next reason now b = record b {
  status = next;
  failure_reason = reason;
  updated_at = millis now;
}

abbrev pub reread : String → Table → Reply Build × Table
reread id t = elim (get id t) [ none ↦ (fails no_such_build, t) | some b ↦ (answers b, t) ]

-- `Transition`; every Status is one that `validStatus` takes.
unfoldable pub transition : Bool → String → Status → String → Time → Table → Reply Build × Table
unfolding get update
transition fault id next reason now t =
    if is_empty id
    then (fails no_build_id, t)
    else if fault
    then (fails storage_failure, t)
    else elim (get id t) [
      | none ↦ (fails no_such_build, t)
      | some b ↦
          if terminal b.status
          then (fails already_terminal, t)
          else reread id (update id (moved_to next reason now) t)
    ]

-- `setColumns`
unfoldable pub set_columns : Bool → String → (Build → Build) → Table → Reply Build × Table
unfolding get update
set_columns fault id g t =
    if is_empty id
    then (fails no_build_id, t)
    else if fault
    then (fails storage_failure, t)
    else reread id (update id g t)

unfoldable pub set_artifact : Bool → String → String → String → Time → Table → Reply Build × Table
set_artifact fault id ref digest now =
    set_columns fault id
      (λ b. record b { image_ref = ref; image_digest = digest; updated_at = millis now })

unfoldable pub set_referrer : Bool → String → String → String → Time → Table → Reply Build × Table
set_referrer fault id digest health now = set_columns fault id (λ b. record b {
  spec_referrer_digest = digest;
  integrity_health = health;
  updated_at = millis now;
})

abbrev pub restart_reason : String
restart_reason = "nodevault process restarted before build reached a terminal state"

abbrev pub interrupt : Time → Build → Build
interrupt now b = if terminal b.status then b else moved_to Status.interrupted restart_reason now b

abbrev pub count_live : Table → ℕ
count_live [] = 0
count_live (b ∷ bs) = if terminal b.status then count_live bs else suc (count_live bs)

-- `RecoverInterrupted`
unfoldable pub recover_interrupted : Bool → Time → Table → Reply ℕ × Table
recover_interrupted fault now t =
    if fault then (fails storage_failure, t) else (answers (count_live t), map (interrupt now) t)
