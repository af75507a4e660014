-- ===== src/Status/Signals.antt =====
-- domain/status.ts, projectStatus: what the phase is decided by.
use agx.Prelude.{
  ℕ, String, Bool, true, false, not, ◌&&◌, ◌||◌, List, [], ◌∷◌, any, nat_eq, string_eq, ◌==◌,
  if◌then◌else◌,
}
use agx.Facts.{is_known}
use agx.Activation.{LaunchPhase, LaunchPlan}
use agx.Plans.{same_phase}
use agx.Deployment.{DeploymentPhase, DeploymentStatus}
use agx.Journal.{Journal, JournalPhase, Step, StepPhase}
use agx.Evidence.{EvidencePhase}
use agx.Status.{UnifiedPhase, ReadbackOutcome, Readback, ProjectionInput, has_outcome}
use agx.Status.Diagnostics.{evidence_is, lacks}

-- What the phase is decided by.
pub record Signals : Type 0 where
  pub blocked : Bool
  pub manual : Bool
  pub uncertain : Bool
  pub resumable : Bool
  pub drifted : Bool
  pub failed : Bool
  pub cancelled : Bool
  pub incomplete : Bool
  pub observing : Bool
  pub applying : Bool
  pub awaiting : Bool
  pub verified : Bool
  pub successful : Bool
  pub configured : Bool

unfoldable pub phase_of : Signals → UnifiedPhase
phase_of s =
    if s.blocked
    then UnifiedPhase.preflight_blocked
    else if s.manual
    then UnifiedPhase.manual_cleanup
    else if s.uncertain
    then (if s.resumable then UnifiedPhase.needs_resume else UnifiedPhase.inconclusive)
    else if s.drifted
    then UnifiedPhase.drifted
    else if s.failed
    then (if s.cancelled then UnifiedPhase.cancelled else UnifiedPhase.failed)
    else if s.incomplete
    then UnifiedPhase.incomplete
    else if s.observing
    then UnifiedPhase.observing
    else if s.applying
    then UnifiedPhase.applying
    else if s.awaiting
    then UnifiedPhase.awaiting
    else if s.verified
    then UnifiedPhase.verified
    else if s.successful
    then UnifiedPhase.succeeded
    else if s.configured
    then UnifiedPhase.configured
    else UnifiedPhase.awaiting

abbrev journal_tag : JournalPhase → ℕ
journal_tag JournalPhase.prepared = 0
journal_tag JournalPhase.applying = 1
journal_tag JournalPhase.observing = 2
journal_tag JournalPhase.succeeded = 3
journal_tag JournalPhase.degraded = 4
journal_tag JournalPhase.failed = 5
journal_tag JournalPhase.cancelled = 6
journal_tag JournalPhase.inconclusive = 7
journal_tag JournalPhase.needs_resume = 8
journal_tag JournalPhase.needs_manual_cleanup = 9

abbrev pub operation_is : JournalPhase → Journal → Bool
operation_is phase o = journal_tag o.phase == journal_tag phase

abbrev deployment_tag : DeploymentPhase → ℕ
deployment_tag DeploymentPhase.planned = 0
deployment_tag DeploymentPhase.applying = 1
deployment_tag DeploymentPhase.configured = 2
deployment_tag DeploymentPhase.awaiting = 3
deployment_tag DeploymentPhase.drifted = 4
deployment_tag DeploymentPhase.inconclusive = 5
deployment_tag DeploymentPhase.failed = 6
deployment_tag DeploymentPhase.verified = 7

abbrev pub deployment_is : DeploymentPhase → DeploymentStatus → Bool
deployment_is phase d = deployment_tag d.phase == deployment_tag phase

abbrev wants_cleanup : Step → Bool
wants_cleanup s = elim s.phase [ StepPhase.needs_manual_cleanup ↦ true | _ ↦ false ]

abbrev is_uncertain : Step → Bool
is_uncertain s = elim s.phase [ StepPhase.inconclusive ↦ true | _ ↦ false ]

abbrev pub some_plan : LaunchPhase → List LaunchPlan → Bool
some_plan phase = any (λ (p : LaunchPlan). same_phase p.phase phase)

abbrev pub is_nil : {A : Type 0} → List A → Bool
is_nil [] = true
is_nil (x ∷ xs) = false

abbrev says : List String → String → Bool
says diagnostics c = any (λ d. d == c) diagnostics

abbrev pub is_successful : ProjectionInput → Bool
is_successful input =
    deployment_is DeploymentPhase.configured input.deployment
    && operation_is JournalPhase.succeeded input.operation

unfoldable pub signals_of : ProjectionInput → List Readback → List String → Signals
signals_of input resources diagnostics =
    let o = input.operation in
    let d = input.deployment in
    let e = input.evidence in
    let plans = input.launch_plans in
    record {
      blocked =
          not (is_known input.active_revision)
          || says diagnostics "STATUS-STALE-IDENTITY"
          || says diagnostics "STATUS-STALE-REVISION"
          || says diagnostics "STATUS-DEPLOYMENT-OPERATION-UNKNOWN"
          || evidence_is EvidencePhase.blocked_preflight e;
      manual = operation_is JournalPhase.needs_manual_cleanup o || any wants_cleanup o.steps;
      uncertain =
          operation_is JournalPhase.inconclusive o
          || operation_is JournalPhase.needs_resume o
          || any is_uncertain o.steps
          || any (has_outcome ReadbackOutcome.unknown_outcome) resources;
      resumable = operation_is JournalPhase.needs_resume o;
      drifted =
          deployment_is DeploymentPhase.drifted d
          || any (has_outcome ReadbackOutcome.modified) resources;
      failed =
          deployment_is DeploymentPhase.failed d
          || operation_is JournalPhase.failed o
          || operation_is JournalPhase.cancelled o
          || operation_is JournalPhase.degraded o
          || some_plan LaunchPhase.failed plans
          || some_plan LaunchPhase.cancelled plans
          || evidence_is EvidencePhase.blocked_outcome e;
      cancelled = operation_is JournalPhase.cancelled o;
      incomplete = some_plan LaunchPhase.incomplete plans;
      observing = deployment_is DeploymentPhase.applying d && some_plan LaunchPhase.observing plans;
      applying =
          deployment_is DeploymentPhase.applying d
          || operation_is JournalPhase.applying o
          || some_plan LaunchPhase.applying plans;
      awaiting =
          deployment_is DeploymentPhase.awaiting d
          || some_plan LaunchPhase.awaiting_confirmation plans
          || evidence_is EvidencePhase.awaiting_verification e
          || evidence_is EvidencePhase.blocked_freshness e
          || lacks o.steps resources;
      verified =
          is_successful input
          && evidence_is EvidencePhase.verified e
          && is_nil e.missing
          && is_nil e.diagnostics
          && is_nil diagnostics;
      successful = is_successful input;
      configured = deployment_is DeploymentPhase.configured d;
    }
