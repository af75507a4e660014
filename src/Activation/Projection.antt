-- ===== src/Activation/Projection.antt =====
-- activation.ts, deriveApplyResult and deriveLaunchStatus: what is shown of a launch.
use agx.Prelude.{String, List, [], ◌∷◌}
use agx.Prelude.Text.{texts}
use agx.Facts.{Fact, known, unknown}
use agx.Client.{ClientId}
use agx.Activation.Names.{outcome_text}
use agx.Activation.{LaunchPhase, ObservedOutcome, LaunchPlan}

pub data Applied : Type 0 where
  applied degraded : Applied

pub record LaunchStatus : Type 0 where
  pub revision_id : String
  pub client : ClientId
  pub client_version : Fact String
  pub phase : LaunchPhase
  pub apply_result : Fact Applied
  pub known_differences : List String

apply_result_of : Fact ObservedOutcome → String → Fact Applied
apply_result_of (known ObservedOutcome.succeeded) created_at = known Applied.applied
apply_result_of (known ObservedOutcome.degraded) created_at = known Applied.degraded
apply_result_of (known outcome) created_at =
    unknown (texts ("launch-outcome-was-" ∷ outcome_text outcome ∷ [])) created_at
apply_result_of (unknown reason observed_at) created_at = unknown reason observed_at

unfoldable pub derive_apply_result : LaunchPlan → Fact Applied
unfolding apply_result_of
derive_apply_result plan = apply_result_of plan.observed_outcome plan.created_at

unfoldable pub derive_launch_status : LaunchPlan → Fact String → List String → LaunchStatus
derive_launch_status plan client_version known_differences = record {
  revision_id = plan.revision_id;
  client = plan.client;
  client_version = client_version;
  phase = plan.phase;
  apply_result = derive_apply_result plan;
  known_differences = known_differences;
}
