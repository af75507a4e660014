-- ===== src/Deployment.antt =====
-- packages/control-plane/src/domain/deployment.ts: the status of a deployment, the observations that
-- can count as evidence for it, and what may be done to a resource.
pub mod Evidence
pub mod Recording
pub mod Tests
use Prim.Native.Char.{code}
use agx.Prelude.{
  ℕ, String, Bool, true, false, not, ◌&&◌, ◌||◌, Option, none, some, leb, ltb, nat_eq, string_eq,
  ◌==◌, if◌then◌else◌,
}
use agx.Prelude.Text.{is_blank}
use agx.Prelude.Checked.{Checked, ok, refused}
use agx.Facts.{Fact, known, unknown}
use agx.Time.{DateParse}

pub data Ownership : Type 0 where
  created_by_configs pre_existing unknown_owner : Ownership

pub data ResourceKind : Type 0 where
  github_repository github_project provider_source : ResourceKind
  multica_workspace multica_runtime multica_agent : ResourceKind

pub data OwnershipAction : Type 0 where
  read mutate delete : OwnershipAction

pub record ResourceBinding : Type 0 where
  pub kind : ResourceKind
  pub resource_id : String
  pub ownership : Ownership
  pub fingerprint : Fact String

pub data EvidenceProfile : Type 0 where
  github_delivery multica_execution : EvidenceProfile

pub data EvidenceSource : Type 0 where
  github multica : EvidenceSource

pub data EvidenceSubjectKind : Type 0 where
  github_repository github_project : EvidenceSubjectKind
  multica_workspace multica_runtime multica_agent : EvidenceSubjectKind

pub record EvidenceSubject : Type 0 where
  pub kind : EvidenceSubjectKind
  pub id : String

pub record ExternalEvidenceObservation : Type 0 where
  pub deployment_id : String
  pub operation_id : String
  pub profile : EvidenceProfile
  pub subject : EvidenceSubject
  pub source : EvidenceSource
  pub evidence_id : String
  pub observed_at : String
  pub expires_at : String
  pub verified_at : String

-- `text.startsWith(prefix)`
unfoldable pub starts_with : String → String → Bool
starts_with text String.[] = true
starts_with String.[] (String.◌∷◌ p prefix) = false
starts_with (String.◌∷◌ c text) (String.◌∷◌ p prefix) = code c == code p && starts_with text prefix

-- that the instants are all finite, and in order: observed, expires, verified, now
abbrev pub in_window : Option ℕ → Option ℕ → Option ℕ → Option ℕ → Bool
in_window (some o) (some e) (some v) (some n) = leb o v && leb v e && leb v n && leb o n && ltb n e
in_window _ _ _ _ = false

abbrev pub is_github_subject : EvidenceSubjectKind → Bool
is_github_subject EvidenceSubjectKind.github_repository = true
is_github_subject EvidenceSubjectKind.github_project = true
is_github_subject _ = false

abbrev pub is_multica_subject : EvidenceSubjectKind → Bool
is_multica_subject EvidenceSubjectKind.multica_workspace = true
is_multica_subject EvidenceSubjectKind.multica_runtime = true
is_multica_subject EvidenceSubjectKind.multica_agent = true
is_multica_subject _ = false

abbrev is_delivery : EvidenceProfile → Bool
is_delivery github_delivery = true
is_delivery multica_execution = false

unfoldable pub source_fits : EvidenceSource → EvidenceSubjectKind → EvidenceProfile → String → Bool
source_fits github kind profile id =
    is_github_subject kind && is_delivery profile && starts_with id "github:"
source_fits multica kind profile id =
    is_multica_subject kind && not (is_delivery profile) && starts_with id "multica:"

-- The checks that a value has the declared type hold of every value here.
unfoldable pub validate_external_evidence_observation :
    DateParse → ExternalEvidenceObservation → String → String → String → Checked {0} Unit
validate_external_evidence_observation parse proof deployment_id operation_id now =
    if not (proof.deployment_id == deployment_id && proof.operation_id == operation_id)
    then refused "invalid-external-evidence"
    else if is_blank proof.evidence_id || is_blank proof.subject.id
    then refused "invalid-external-evidence"
    else if not (
        in_window (parse proof.observed_at) (parse proof.expires_at) (parse proof.verified_at)
          (parse now))
    then refused "invalid-external-evidence"
    else if not (source_fits proof.source proof.subject.kind proof.profile proof.evidence_id)
    then refused "invalid-external-evidence"
    else ok tt

authorize_own : Fact String → Checked {0} Unit
authorize_own (unknown reason at) = refused "resource-fingerprint-unknown"
authorize_own (known value) =
    if is_blank value then refused "resource-fingerprint-invalid" else ok tt

authorize_owned : Ownership → Fact String → Checked {0} Unit
authorize_owned created_by_configs fingerprint = authorize_own fingerprint
authorize_owned pre_existing fingerprint = refused "resource-is-pre-existing"
authorize_owned unknown_owner fingerprint = refused "resource-ownership-unknown"

unfoldable pub authorize_ownership : ResourceBinding → OwnershipAction → Checked {0} Unit
unfolding authorize_own authorize_owned
authorize_ownership resource read = ok tt
authorize_ownership resource _ = authorize_owned resource.ownership resource.fingerprint

pub data DeploymentPhase : Type 0 where
  planned applying configured awaiting drifted inconclusive failed verified : DeploymentPhase

pub data DeploymentObservedOutcome : Type 0 where
  configured awaiting failed : DeploymentObservedOutcome

pub data DeploymentEvent : Type 0 where
  apply_started : String → DeploymentEvent
  observed : DeploymentObservedOutcome → DeploymentEvent
  remote_uncertain : String → DeploymentEvent
  resume_requested drift_detected : DeploymentEvent
  evidence_observed : ExternalEvidenceObservation → DeploymentEvent

pub record DeploymentStatus : Type 0 where
  pub deployment_id : String
  pub phase : DeploymentPhase
  pub last_operation_id : Fact String
  pub reason : Option String
  pub next_action : String

unfoldable pub create_deployment_status : String → String → DeploymentStatus
create_deployment_status deployment_id created_at = record {
  deployment_id = deployment_id;
  phase = DeploymentPhase.planned;
  last_operation_id = unknown "no-operation-recorded" created_at;
  reason = none;
  next_action = "prepare-plan";
}

abbrev pub outcome_phase : DeploymentObservedOutcome → DeploymentPhase
outcome_phase DeploymentObservedOutcome.configured = DeploymentPhase.configured
outcome_phase DeploymentObservedOutcome.awaiting = DeploymentPhase.awaiting
outcome_phase DeploymentObservedOutcome.failed = DeploymentPhase.failed

abbrev outcome_action : DeploymentObservedOutcome → String
outcome_action DeploymentObservedOutcome.configured = "none"
outcome_action _ = "inspect-diagnostics"

abbrev pub operation_of : Fact String → String
operation_of (known id) = id
operation_of (unknown reason at) = ""

evidence_checked : Checked {0} Unit → DeploymentStatus → Checked DeploymentStatus
evidence_checked (refused reason) status = refused reason
evidence_checked (ok u) status = ok (record status { next_action = "evaluate-evidence-profile" })

module _ (parse : DateParse) where
  observe_evidence :
      DeploymentStatus → ExternalEvidenceObservation → String → Checked DeploymentStatus
  unfolding evidence_checked
  observe_evidence status proof now =
      evidence_checked
        (validate_external_evidence_observation parse proof status.deployment_id
          (operation_of status.last_operation_id) now)
        status

  transition_at :
      DeploymentPhase → DeploymentStatus → DeploymentEvent → String → Checked DeploymentStatus
  transition_at DeploymentPhase.planned status (apply_started id) now = ok (record status {
    phase = DeploymentPhase.applying;
    last_operation_id = known id;
    next_action = "observe-resources";
  })
  transition_at DeploymentPhase.applying status (observed outcome) now =
      ok (record status { phase = outcome_phase outcome; next_action = outcome_action outcome })
  transition_at DeploymentPhase.applying status (remote_uncertain reason) now = ok (record status {
    phase = DeploymentPhase.inconclusive;
    reason = some reason;
    next_action = "observe-remote-state";
  })
  transition_at DeploymentPhase.inconclusive status resume_requested now =
      ok (record status { phase = DeploymentPhase.applying; next_action = "observe-resources" })
  transition_at DeploymentPhase.configured status drift_detected now =
      ok (record status { phase = DeploymentPhase.drifted; next_action = "reconcile-resources" })
  transition_at DeploymentPhase.configured status (evidence_observed proof) now =
      observe_evidence status proof now
  transition_at DeploymentPhase.awaiting status (evidence_observed proof) now =
      observe_evidence status proof now
  transition_at _ status event now = refused "invalid-transition"

  unfoldable pub transition_deployment :
      DeploymentStatus → DeploymentEvent → String → Checked DeploymentStatus
  unfolding observe_evidence transition_at
  transition_deployment status event now = transition_at status.phase status event now
