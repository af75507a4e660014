-- ===== src/Status.antt =====
-- packages/control-plane/src/domain/status.ts and application/status.ts: one status for all that is
-- known of a deployment, an operation on it, its launches, its resources and the evidence.
pub mod Readbacks
pub mod Diagnostics
pub mod Signals
pub mod Projecting
pub mod Verified
pub mod Loading
pub mod Tests
use agx.Prelude.{ℕ, String, Option, List, nat_eq, ◌==◌, Bool}
use agx.Facts.{Fact}
use agx.Config.{StableConfigRevision}
use agx.Activation.{LaunchPlan}
use agx.Deployment.{DeploymentStatus, Ownership}
use agx.Journal.{Journal}
use agx.Evidence.{EvidenceReceipt}

pub data UnifiedPhase : Type 0 where
  preflight_blocked manual_cleanup inconclusive needs_resume drifted failed cancelled incomplete
        applying observing awaiting configured succeeded verified :
      UnifiedPhase

pub data ReadbackOutcome : Type 0 where
  matched missing modified unknown_outcome : ReadbackOutcome

pub data ReadbackKind : Type 0 where
  repository project provider : ReadbackKind

-- StatusReadback, and StatusResourceSummary, which has the same fields
pub record Readback : Type 0 where
  pub kind : ReadbackKind
  pub resource_id : String
  pub digest : Option String
  pub ownership : Ownership
  pub outcome : ReadbackOutcome

-- StatusProjectionInput
pub record ProjectionInput : Type 0 where
  pub active_revision : Fact StableConfigRevision
  pub deployment : DeploymentStatus
  pub operation : Journal
  pub launch_plans : List LaunchPlan
  pub readbacks : List Readback
  pub evidence : EvidenceReceipt

pub record UnifiedStatus : Type 0 where
  pub phase : UnifiedPhase
  pub deployment_id : String
  pub operation_id : String
  pub revision_id : Option String
  pub resources : List Readback
  pub diagnostics : List String
  pub missing : List String
  pub next_actions : List String

-- The kinds in the order of their names: project, provider, repository.
abbrev pub kind_tag : ReadbackKind → ℕ
kind_tag project = 0
kind_tag provider = 1
kind_tag repository = 2

abbrev pub outcome_tag : ReadbackOutcome → ℕ
outcome_tag matched = 0
outcome_tag missing = 1
outcome_tag modified = 2
outcome_tag unknown_outcome = 3

abbrev pub has_outcome : ReadbackOutcome → Readback → Bool
has_outcome outcome r = outcome_tag r.outcome == outcome_tag outcome
