-- ===== src/Evidence/Tests.antt =====
-- Observations that show a delivery on GitHub.
use agx.Prelude.{String, ◌≡◌, refl, none, some, Bool, false, Option, ℕ, [], ◌∷◌, string_eq}
use agx.Prelude.Text.{matches_each, times, literally}
use agx.Deployment.{EvidenceProfile, EvidenceSource}
use agx.Deployment.Tests.{clock}
use agx.Evidence.{
  EvidenceKind, EvidenceObservation, EvaluationInput, ObservationOutcome, EvidencePhase,
  resource_for_kind, input_schema, observation_schema, evaluator_version,
}
use agx.Evidence.Validating.{
  validate_observation, validate_ref, is_hex64, is_hex40, is_uuid, is_installation,
}
use agx.Evidence.Comparing.{same_key, same_observation}
use agx.Evidence.Evaluating.{
  evaluate_evidence, assess, drop_ambiguous, revisions, select, find_evidence, phase_of, sort_by,
  insert_by,
}
use agx.Evidence.Tallying.{
  envelope_diagnostics, identify, tally, judge, add_value, unique_diagnostics,
}
use agx.Evidence.Evaluating.Verified.{Stands, verified_sound}

abbrev digest : String
digest = "0123456789abcdef0123456789abcdef0123456789abcdef0123456789abcdef"

abbrev commit : String
commit = "0123456789abcdef0123456789abcdef01234567"

abbrev observation : EvidenceKind → Option String → Option ℕ → Option String → EvidenceObservation
observation kind identity number revision = record {
  schema_version = observation_schema;
  evaluator_version = evaluator_version;
  source = EvidenceSource.github;
  kind = kind;
  installation_id = "install-0123456789abcdef";
  deployment_digest = digest;
  subject_digest = digest;
  ref = record {
    resource_type = resource_for_kind kind;
    identity = identity;
    uuid = none;
    number = number;
    revision = revision;
  };
  fingerprint = digest;
  outcome = ObservationOutcome.matched;
  observed_at = "t1";
}

abbrev by_digest : EvidenceKind → EvidenceObservation
by_digest kind = observation kind (some digest) none none

abbrev by_number : EvidenceKind → EvidenceObservation
by_number kind = observation kind none (some 7) none

abbrev input : EvaluationInput
input = record {
  schema_version = input_schema;
  evaluator_version = evaluator_version;
  installation_id = "install-0123456789abcdef";
  deployment_digest = digest;
  subject_digest = digest;
  profile = EvidenceProfile.github_delivery;
  evaluated_at = "t3";
  observations =
      by_digest EvidenceKind.control_repository
      ∷ by_digest EvidenceKind.contracts_repository
      ∷ by_digest EvidenceKind.project
      ∷ by_number EvidenceKind.project_item
      ∷ by_number EvidenceKind.contract_issue
      ∷ observation EvidenceKind.current_work (some digest) none (some commit)
      ∷ observation EvidenceKind.delivery_pr none (some 9) (some commit)
      ∷ by_digest EvidenceKind.independent_verifier
      ∷ by_digest EvidenceKind.project
      ∷ [];
}

abbrev in_order : EvidenceObservation → EvidenceObservation → Bool
in_order a b = false

verifies : (evaluate_evidence clock in_order input "t3").phase ≡ EvidencePhase.verified
unfolding evaluate_evidence assess envelope_diagnostics identify tally judge add_value
    drop_ambiguous revisions select find_evidence phase_of unique_diagnostics sort_by insert_by
    validate_observation validate_ref is_hex64 is_hex40 is_uuid is_installation same_key
    same_observation matches_each times literally
verifies = refl

verified_example : Stands clock input "t3"
verified_example = verified_sound clock input "t3" in_order verifies

-- Without the delivery something is missing.
abbrev undelivered : EvaluationInput
undelivered = record input { observations = by_digest EvidenceKind.project ∷ [] }

awaits :
    (evaluate_evidence clock in_order undelivered "t3").phase ≡ EvidencePhase.awaiting_verification
unfolding evaluate_evidence assess envelope_diagnostics identify tally judge add_value
    drop_ambiguous revisions select find_evidence phase_of unique_diagnostics sort_by insert_by
    validate_observation validate_ref is_hex64 is_hex40 is_uuid is_installation same_key
    same_observation matches_each times literally
awaits = refl
