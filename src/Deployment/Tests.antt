-- ===== src/Deployment/Tests.antt =====
-- An observation on GitHub, and a deployment that it is about.
use agx.Prelude.{String, ◌≡◌, ◌≢◌, refl, none, some, List, [], ◌∷◌, string_eq, ◌==◌, if◌then◌else◌}
use agx.Prelude.Text.{is_blank, trim, trim_start, trim_end}
use agx.Prelude.Checked.{ok}
use agx.Facts.{known}
use agx.Time.{DateParse}
use agx.Deployment.{
  ExternalEvidenceObservation, ResourceBinding, Ownership, OwnershipAction, DeploymentStatus,
  DeploymentEvent, DeploymentPhase, EvidenceSubjectKind, EvidenceProfile, EvidenceSource,
  ResourceKind, DeploymentObservedOutcome, apply_started, observed,
  validate_external_evidence_observation, authorize_ownership, create_deployment_status,
  transition_deployment,
}
use agx.Deployment.Evidence.{authorize_iff}
use agx.Deployment.Recording.{Reached, created, next, Records, Reached-Records}

abbrev pub clock : DateParse
clock s =
    if s == "t1"
    then some 1
    else if s == "t2"
    then some 2
    else if s == "t3"
    then some 3
    else if s == "t9"
    then some 9
    else none

abbrev pub proof : ExternalEvidenceObservation
proof = record {
  deployment_id = "d1";
  operation_id = "o1";
  profile = EvidenceProfile.github_delivery;
  subject = record { kind = EvidenceSubjectKind.github_repository; id = "r1" };
  source = EvidenceSource.github;
  evidence_id = "github:1";
  observed_at = "t1";
  expires_at = "t9";
  verified_at = "t2";
}

late : validate_external_evidence_observation clock proof "d1" "o1" "t9" ≢ ok tt
unfolding validate_external_evidence_observation is_blank trim trim_start trim_end
late e = cc

abbrev repository : ResourceBinding
repository = record {
  kind = ResourceKind.github_repository;
  resource_id = "r1";
  ownership = Ownership.created_by_configs;
  fingerprint = known "f";
}

authorize_iff_example : authorize_ownership repository OwnershipAction.delete ≡ ok tt
unfolding is_blank trim trim_start trim_end
authorize_iff_example =
    (authorize_iff repository OwnershipAction.delete).1 (λ ne. (refl, ("f", refl, refl)))

abbrev events : List (DeploymentEvent × String)
events = (observed DeploymentObservedOutcome.configured, "t2") ∷ (apply_started "o1", "t1") ∷ []

abbrev configured : DeploymentStatus
configured = record {
  deployment_id = "d1";
  phase = DeploymentPhase.configured;
  last_operation_id = known "o1";
  reason = none;
  next_action = "none";
}

run : Reached clock "d1" "t1" events configured
unfolding transition_deployment create_deployment_status
run = next _ "t2" (next (apply_started "o1") "t1" created refl) refl

Reached-Records_example : Records "d1" events configured
Reached-Records_example = Reached-Records {parse = clock} {at = "t1"} run
