-- ===== src/Status/Tests.antt =====
-- A deployment of one repository, in place and verified; and the same as it is stored.
use agx.Prelude.{ℕ, suc, String, ◌≡◌, refl, none, some, Option, [], ◌∷◌}
use agx.Prelude.Text.{is_blank, units, all_in, matches_each, times, trim}
use agx.Prelude.Outcome.{returned}
use agx.Facts.{known}
use agx.Config.Compare.{sort_names, insert_name}
use agx.Queries.{Lookup, unique_ids}
use agx.Activation.{LaunchPlan}
use agx.Activation.Tests.{succeeded}
use agx.Launch.Tests.{base}
use agx.Deployment.{DeploymentStatus, DeploymentPhase, Ownership}
use agx.Journal.{Journal, JournalPhase, Step, StepPhase, StepKind, retain}
use agx.Evidence.{EvidencePhase, EvidenceReceipt}
use agx.Evidence.Validating.{is_hex64}
use agx.Status.{UnifiedPhase, ReadbackOutcome, ReadbackKind, Readback, ProjectionInput}
use agx.Status.Readbacks.{
  readback_summaries, scan, valid_readback, sort_readbacks, insert_readback, lower_digest,
}
use agx.Status.Projecting.{project_status}
use agx.Status.Signals.{signals_of, phase_of}
use agx.Status.Diagnostics.{diagnostics_of, codes, is_code, stale_plans}
use agx.Status.Verified.{Shown, status_sound}
use agx.Status.Loading.{
  Dependencies, Loaded, load_status_projection, load_unsettled, awaiting_evidence,
}

abbrev digest : String
digest = "0123456789abcdef0123456789abcdef0123456789abcdef0123456789abcdef"

abbrev receipt : EvidenceReceipt
receipt = record awaiting_evidence {
  phase = EvidencePhase.verified;
  deployment_digest = digest;
  subject_digest = digest;
}

abbrev step : Step
step = record {
  sequence = 1;
  kind = StepKind.github_repository;
  resource = "acme/app";
  phase = StepPhase.succeeded;
  reason = none;
}

abbrev operation : Journal
operation = record {
  operation_id = "op-1";
  deployment_id = "dep-1";
  revision_id = some "rev-1";
  phase = JournalPhase.succeeded;
  steps = step ∷ [];
  resolutions = none;
  remote_retention = retain;
  next_action = "none";
  reason = none;
}

abbrev deployment : DeploymentStatus
deployment = record {
  deployment_id = "dep-1";
  phase = DeploymentPhase.configured;
  last_operation_id = known "op-1";
  reason = none;
  next_action = "none";
}

abbrev readback : Readback
readback = record {
  kind = ReadbackKind.repository;
  resource_id = "acme/app";
  digest = none;
  ownership = Ownership.created_by_configs;
  outcome = ReadbackOutcome.matched;
}

abbrev plan : LaunchPlan
plan = record succeeded { operation_id = "op-1"; revision_id = "rev-1" }

abbrev in_place : ProjectionInput
in_place = record {
  active_revision = known base;
  deployment = deployment;
  operation = operation;
  launch_plans = plan ∷ [];
  readbacks = readback ∷ [];
  evidence = receipt;
}

in_place_verified : (project_status in_place).phase ≡ UnifiedPhase.verified
unfolding project_status signals_of diagnostics_of phase_of codes is_code stale_plans
    readback_summaries scan valid_readback sort_readbacks insert_readback units all_in is_hex64
    matches_each times
in_place_verified = refl

status_sound_example : Shown in_place
status_sound_example = status_sound in_place in_place_verified

-- A second readback of a resource is refused, and the first one counts.
twice :
    (project_status (record in_place { readbacks = readback ∷ readback ∷ [] })).diagnostics
    ≡ "STATUS-READBACK-INVALID" ∷ []
unfolding project_status diagnostics_of codes is_code stale_plans readback_summaries scan
    valid_readback sort_readbacks insert_readback units all_in is_hex64 matches_each times
    sort_names unique_ids insert_name
twice = refl

abbrev upper : Option String
upper = some "ABCDEF0123456789abcdef0123456789abcdef0123456789abcdef0123456789"

lowered :
    (readback_summaries (record readback { digest = upper } ∷ [])).resources
    ≡ record readback {
      digest = some "abcdef0123456789abcdef0123456789abcdef0123456789abcdef0123456789";
    }
      ∷ []
unfolding readback_summaries scan valid_readback sort_readbacks insert_readback units all_in
    is_hex64 matches_each times lower_digest
lowered = refl

abbrev stored : Dependencies ℕ
stored = record {
  find_deployment = λ id n. (returned (some deployment), suc n);
  find_operation = λ id n. (returned (some operation), suc n);
  find_revision = λ id n. (returned (Lookup.revision base), suc n);
}

abbrev loaded : ProjectionInput
loaded = record in_place { launch_plans = []; readbacks = []; evidence = awaiting_evidence }

load_stored : load_status_projection stored "dep-1" "op-1" 0 ≡ (returned (some loaded), 3)
unfolding load_status_projection is_blank trim
load_stored = refl

load_unsettled_example : Loaded stored "dep-1" "op-1" loaded 0
load_unsettled_example = load_unsettled stored "dep-1" "op-1" loaded 0 3 load_stored
