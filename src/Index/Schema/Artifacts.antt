-- ===== src/Index/Schema/Artifacts.antt =====
-- pkg/index/schema.go: artifacts, their two state axes and their toolprofile referrers.
-- The typed string constants are data types; `unset` is the empty string, the zero value.
use node_vault.Base.{ℕ, Time, String, List, Bool, true, false}

pub data ArtifactKind : Type 0 where
  unset tool dataset tool_function : ArtifactKind

pub data LifecyclePhase : Type 0 where
  unset pending active retracted deleted : LifecyclePhase

pub data IntegrityHealth : Type 0 where
  unset healthy partial missing unreachable orphaned : IntegrityHealth

pub data ReferrerLifecycleStatus : Type 0 where
  unset active gc_candidate missing_in_registry : ReferrerLifecycleStatus

-- `DefaultToolProfileReferrerRetain`
abbrev pub default_tool_profile_referrer_retain : ℕ
default_tool_profile_referrer_retain = 3

pub record ToolProfileReferrer : Type 0 where
  pub digest : String
  pub validation_run_id : String
  pub validation_status : String
  pub validated_at : Time
  pub observed_at : Time
  pub rank : ℕ
  pub lifecycle_status : ReferrerLifecycleStatus
  pub gc_reason : String
  pub marked_at : Time

pub record Entry : Type 0 where
  pub cas_hash : String
  pub artifact_kind : ArtifactKind
  pub stable_ref : String
  pub tool_name : String
  pub version : String
  pub image_ref : String
  pub image_digest : String
  pub spec_referrer_digest : String
  pub observed_profile_digest : String
  pub observed_profile_referrers : List ToolProfileReferrer
  pub lifecycle_phase : LifecyclePhase
  pub integrity_health : IntegrityHealth
  pub registered_at : Time
  pub lifecycle_updated_at : Time
  pub health_checked_at : Time

-- `==` on phases and on healths, which are strings in the source.
abbrev pub phase_eq : LifecyclePhase → LifecyclePhase → Bool
phase_eq LifecyclePhase.unset LifecyclePhase.unset = true
phase_eq LifecyclePhase.pending LifecyclePhase.pending = true
phase_eq LifecyclePhase.active LifecyclePhase.active = true
phase_eq LifecyclePhase.retracted LifecyclePhase.retracted = true
phase_eq LifecyclePhase.deleted LifecyclePhase.deleted = true
phase_eq _ _ = false

abbrev pub health_eq : IntegrityHealth → IntegrityHealth → Bool
health_eq IntegrityHealth.unset IntegrityHealth.unset = true
health_eq IntegrityHealth.healthy IntegrityHealth.healthy = true
health_eq IntegrityHealth.partial IntegrityHealth.partial = true
health_eq IntegrityHealth.missing IntegrityHealth.missing = true
health_eq IntegrityHealth.unreachable IntegrityHealth.unreachable = true
health_eq IntegrityHealth.orphaned IntegrityHealth.orphaned = true
health_eq _ _ = false

abbrev pub is_gc_candidate : ReferrerLifecycleStatus → Bool
is_gc_candidate ReferrerLifecycleStatus.gc_candidate = true
is_gc_candidate _ = false
