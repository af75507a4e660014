-- ===== src/Status/Verified.antt =====
-- domain/status.ts: what a status that is shown as verified stands for.
use agx.Prelude.{
  String, ◌≡◌, refl, ap, subst, ◌∙◌, Bool, true, false, not, ◌||◌, some, List, [], ◌∷◌, All,
  string_eq, ◌==◌, arith, eq_iff, and-split,
}
use agx.Prelude.Lists.{append-nil_left}
use agx.Facts.{Fact, known, unknown, is_known}
use agx.Config.{StableConfigRevision}
use agx.Activation.{LaunchPlan}
use agx.Deployment.{DeploymentPhase}
use agx.Journal.{Journal, JournalPhase}
use agx.Evidence.{EvidencePhase}
use agx.Status.{UnifiedPhase, Readback, ProjectionInput}
use agx.Status.Readbacks.{readback_summaries}
use agx.Status.Projecting.{project_status}
use agx.Status.Signals.{Signals, phase_of, signals_of, deployment_is, operation_is, is_nil}
use agx.Status.Diagnostics.{
  diagnostics_of, lacks, when, is_stale, is_stale_plan, stale_plans, revision_of, evidence_is,
}
use agx.Status.Readbacks.Showing.{Shows, all_Shows, all_met}

-- What is known when everything is as it should be.
pub record Shown (input : ProjectionInput) : Type 0 where
  pub revision : StableConfigRevision
  pub active : input.active_revision ≡ known revision
  pub same_deployment : input.operation.deployment_id ≡ input.deployment.deployment_id
  pub last_operation : input.deployment.last_operation_id ≡ known input.operation.operation_id
  pub current :
      All
        (λ (p : LaunchPlan).
          (p.operation_id ≡ input.operation.operation_id) × (p.revision_id ≡ revision.revision_id))
        input.launch_plans
  pub shown : All (λ step. Shows step input.readbacks) input.operation.steps
  pub configured : input.deployment.phase ≡ DeploymentPhase.configured
  pub succeeded : input.operation.phase ≡ JournalPhase.succeeded
  pub evidence : input.evidence.phase ≡ EvidencePhase.verified

phase_verified : (s : Signals) → phase_of s ≡ UnifiedPhase.verified → s.verified ≡ true
unfolding phase_of
phase_verified s e = ground arith

when-nil : (b : Bool) (c : String) → when b c ≡ [] → b ≡ false
when-nil true c e = absurd (cc)
when-nil false c e = refl

all_current :
    (o : Journal) (revision : String) (plans : List LaunchPlan)
    → stale_plans o (some revision) plans ≡ []
    → All (λ (p : LaunchPlan). (p.operation_id ≡ o.operation_id) × (p.revision_id ≡ revision)) plans
unfolding stale_plans
all_current o revision [] e = tt
all_current o revision (p ∷ plans) e =
    let (first, rest) = append-nil_left _ _ e in
    let current = when-nil (is_stale_plan o (some revision) p) "STATUS-STALE-REVISION" first in
    (
      ((eq_iff _ _).0 (ground arith), (eq_iff _ _).0 (ground arith)),
      all_current o revision plans rest,
    )

not-not : (b : Bool) → not b ≡ false → b ≡ true
not-not b e = ground arith

-- What it means that there is no diagnostic.
record Silent (input : ProjectionInput) (resources : List Readback) : Type 0 where
  met : lacks input.operation.steps resources ≡ false
  active : is_known input.active_revision ≡ true
  fresh : is_stale input.deployment input.operation ≡ false
  operated : is_known input.deployment.last_operation_id ≡ true
  plans : stale_plans input.operation (revision_of input.active_revision) input.launch_plans ≡ []

diagnostics-Silent :
    (input : ProjectionInput) (resources : List Readback) (invalid : List String)
    → diagnostics_of input resources invalid ≡ []
    → Silent input resources
unfolding diagnostics_of
diagnostics-Silent input resources invalid e =
    let (e₁, digests) = append-nil_left _ _ e in
    let (e₂, unknown_read) = append-nil_left _ _ e₁ in
    let (e₃, preflight) = append-nil_left _ _ e₂ in
    let (e₄, plans) = append-nil_left _ _ e₃ in
    let (e₅, operated) = append-nil_left _ _ e₄ in
    let (e₆, fresh) = append-nil_left _ _ e₅ in
    let (e₇, active) = append-nil_left _ _ e₆ in
    let (e₈, said) = append-nil_left _ _ e₇ in
    let (e₉, met) = append-nil_left _ _ e₈ in
    record {
      met = when-nil (lacks input.operation.steps resources) _ met;
      active = not-not (is_known input.active_revision) (when-nil _ _ active);
      fresh = when-nil (is_stale input.deployment input.operation) _ fresh;
      operated = not-not (is_known input.deployment.last_operation_id) (when-nil _ _ operated);
      plans = plans;
    }

known-value : {A : Type 0} (f : Fact A) → is_known f ≡ true → (a : A) × (f ≡ known a)
known-value (known a) e = (a, refl)
known-value (unknown reason at) e = absurd (cc)

nil-eq : {A : Type 0} (xs : List A) → is_nil xs ≡ true → xs ≡ []
nil-eq [] e = refl
nil-eq (x ∷ xs) e = absurd (cc)

configured-eq :
    (input : ProjectionInput)
    → deployment_is DeploymentPhase.configured input.deployment ≡ true
    → input.deployment.phase ≡ DeploymentPhase.configured
configured-eq input e = ground arith

succeeded-eq :
    (input : ProjectionInput)
    → operation_is JournalPhase.succeeded input.operation ≡ true
    → input.operation.phase ≡ JournalPhase.succeeded
succeeded-eq input e = ground arith

verified-eq :
    (input : ProjectionInput)
    → evidence_is EvidencePhase.verified input.evidence ≡ true
    → input.evidence.phase ≡ EvidencePhase.verified
verified-eq input e = ground arith

-- the deployment and the operation agree with each other
same_identity :
    (input : ProjectionInput) (id : String)
    → is_stale input.deployment input.operation ≡ false
    → input.deployment.last_operation_id ≡ known id
    → (input.operation.deployment_id ≡ input.deployment.deployment_id)
      × (id ≡ input.operation.operation_id)
same_identity input id fresh e =
    let known_fresh : not (input.operation.deployment_id == input.deployment.deployment_id)
          || not (id == input.operation.operation_id)
        ≡ false =
      rw e at fresh in
    ((eq_iff _ _).0 (ground arith), (eq_iff _ _).0 (ground arith))

-- A status is shown as verified only if the revision is known, the operation is the deployment's
-- last one, every launch plan is one of that operation and revision, every step of the operation
-- is shown to be in place by a valid readback, the deployment is configured, the operation has
-- succeeded and the evidence is verified.
pub status_sound :
    (input : ProjectionInput) → (project_status input).phase ≡ UnifiedPhase.verified → Shown input
unfolding project_status signals_of
status_sound input e =
    let read = readback_summaries input.readbacks in
    let diagnostics = diagnostics_of input read.resources read.diagnostics in
    let all_well = phase_verified (signals_of input read.resources diagnostics) e in
    let (before, unsaid) = and-split _ _ all_well in
    let (before', no_evidence_diagnostics) = and-split _ _ before in
    let (before'', none_missing) = and-split _ _ before' in
    let (successful, evidence) = and-split _ _ before'' in
    let (configured, succeeded) = and-split _ _ successful in
    let silent =
      diagnostics-Silent input read.resources read.diagnostics (nil-eq diagnostics unsaid) in
    let (revision, active) = known-value input.active_revision silent.active in
    let (id, operated) = known-value input.deployment.last_operation_id silent.operated in
    let (same, last) = same_identity input id silent.fresh operated in
    record {
      revision = revision;
      active = active;
      same_deployment = same;
      last_operation = operated ∙ ap known last;
      current = all_current input.operation revision.revision_id input.launch_plans (
          subst (λ r. stale_plans input.operation (revision_of r) input.launch_plans ≡ []) active
            silent.plans);
      shown = all_Shows _ input.readbacks (all_met _ _ silent.met);
      configured = configured-eq input configured;
      succeeded = succeeded-eq input succeeded;
      evidence = verified-eq input evidence;
    }
