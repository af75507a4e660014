-- ===== src/Activation/Tests.antt =====
-- A plan that is confirmed, started and observed, and its hash.
use agx.Prelude.{◌≤◌, ◌%◌, ◌^◌, String, ◌≡◌, refl, none, true, List, [], ◌∷◌, length}
use agx.Prelude.Text.{code_units}
use agx.Facts.{known, unknown}
use agx.Client.{ClientId}
use agx.Activation.{
  LaunchPhase, ObservedOutcome, LaunchPlan, LaunchPlanEvent, ConfirmationToken,
  CreateLaunchPlanParams, create_launch_plan, transition_launch_plan, validate_confirmation_token,
  prepared_ok, confirmed, process_started, observed,
}
use agx.Activation.Hash.{hash_units, to_hex}
use agx.Activation.Polynomial.{polynomial, hash_units_lem}
use agx.Activation.Phases.{SamePlan}
use agx.Activation.History.{Runs, here, next, confirmations, Runs-bound}
use agx.Activation.Soundness.{consistent, ConfirmedAt, Runs-sound}
use agx.Activation.Projection.{Applied, derive_launch_status, derive_apply_result}
use agx.Activation.Showing.{shown_in, launch_status_sound}

abbrev pub params : CreateLaunchPlanParams
params = record {
  plan_id = "plan-1";
  operation_id = "op-1";
  revision_id = "rev-1";
  config_name = "base";
  client = ClientId.omp;
  plan_hash = "ph_0";
  created_at = "2026-01-01T00:00:00.000Z";
}

abbrev token : ConfirmationToken
token = record {
  plan_id = "plan-1";
  revision_id = "rev-1";
  plan_hash = "ph_0";
  issued_at = "2026-01-01T00:00:01.000Z";
}

abbrev pub fresh : LaunchPlan
fresh = record {
  plan_id = "plan-1";
  operation_id = "op-1";
  revision_id = "rev-1";
  config_name = "base";
  client = ClientId.omp;
  plan_hash = "ph_0";
  phase = LaunchPhase.prepared;
  created_at = "2026-01-01T00:00:00.000Z";
  confirmed_at = unknown "not-yet-confirmed" "2026-01-01T00:00:00.000Z";
  failure_reason = unknown "no-failure-recorded" "2026-01-01T00:00:00.000Z";
  observed_outcome = unknown "not-yet-observed" "2026-01-01T00:00:00.000Z";
}

abbrev pub awaiting : LaunchPlan
awaiting = record fresh { phase = LaunchPhase.awaiting_confirmation }

abbrev pub applying : LaunchPlan
applying = record fresh {
  phase = LaunchPhase.applying;
  confirmed_at = known "2026-01-01T00:00:01.000Z";
}

abbrev observing : LaunchPlan
observing = record applying { phase = LaunchPhase.observing }

abbrev pub succeeded : LaunchPlan
succeeded = record applying {
  phase = LaunchPhase.succeeded;
  observed_outcome = known ObservedOutcome.succeeded;
}

abbrev all_events : List LaunchPlanEvent
all_events =
    observed ObservedOutcome.succeeded none ∷ process_started ∷ confirmed token ∷ prepared_ok ∷ []

whole_run : Runs (create_launch_plan params) all_events succeeded
unfolding create_launch_plan transition_launch_plan validate_confirmation_token
whole_run =
    next {q = observing} (observed ObservedOutcome.succeeded none)
      (next {q = applying} process_started
        (next {q = awaiting} (confirmed token) (next {q = fresh} prepared_ok here refl) refl) refl)
      refl

Runs-bound_example :
    (length all_events ≤ 5)
    × (confirmations all_events ≤ 1)
    × SamePlan (create_launch_plan params) succeeded
Runs-bound_example =
    Runs-bound {p = create_launch_plan params} {q = succeeded} {events = all_events} whole_run

Runs-sound_example :
    (consistent succeeded ≡ true)
    × ((t : String) → succeeded.confirmed_at ≡ known t → ConfirmedAt t all_events succeeded)
Runs-sound_example = Runs-sound params all_events succeeded whole_run

shows_applied :
    (derive_launch_status succeeded (known "1.0") []).apply_result ≡ known Applied.applied
unfolding derive_launch_status derive_apply_result
shows_applied = refl

launch_status_sound_example :
    (true ≡ true)
    × (shown_in Applied.applied (derive_launch_status succeeded (known "1.0") []).phase ≡ true)
launch_status_sound_example =
    launch_status_sound params all_events succeeded (known "1.0") [] Applied.applied whole_run
      shows_applied

hash_units_example : hash_units 0 (104 ∷ 105 ∷ []) ≡ polynomial (104 ∷ 105 ∷ []) % 2 ^ 32
hash_units_example = hash_units_lem (104 ∷ 105 ∷ [])

hash_hi : hash_units 0 (code_units "hi") ≡ 3329
unfolding hash_units code_units
hash_hi = refl

hex_hi : to_hex 3329 ≡ "d01"
unfolding to_hex
hex_hi = refl
