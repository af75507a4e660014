-- ===== src/Activation.antt =====
-- packages/control-plane/src/domain/activation.ts: the launch plan and its transitions.
pub mod Hash
pub mod Names
pub mod Polynomial
pub mod Projection
pub mod Phases
pub mod History
pub mod Soundness
pub mod Showing
pub mod Tests
use agx.Prelude.{
  String, Option, none, some, Bool, true, false, not, ◌&&◌, List, [], ◌∷◌, StrictEq, string_eq,
  ◌==◌, if◌then◌else◌,
}
use agx.Prelude.Checked.{Checked, ok, refused}
use agx.Facts.{Fact, known, unknown}
use agx.Client.{ClientId}

pub data LaunchPhase : Type 0 where
  prepared awaiting_confirmation applying observing succeeded degraded failed cancelled
        requires_restart incomplete :
      LaunchPhase

pub data ObservedOutcome : Type 0 where
  succeeded degraded failed incomplete : ObservedOutcome

-- an outcome as the phase of the same name
abbrev pub outcome_phase : ObservedOutcome → LaunchPhase
outcome_phase ObservedOutcome.succeeded = LaunchPhase.succeeded
outcome_phase ObservedOutcome.degraded = LaunchPhase.degraded
outcome_phase ObservedOutcome.failed = LaunchPhase.failed
outcome_phase ObservedOutcome.incomplete = LaunchPhase.incomplete

-- TERMINAL_PHASES and `isTerminalPhase`
unfoldable pub is_terminal_phase : LaunchPhase → Bool
is_terminal_phase LaunchPhase.cancelled = true
is_terminal_phase LaunchPhase.requires_restart = true
is_terminal_phase LaunchPhase.succeeded = true
is_terminal_phase LaunchPhase.degraded = true
is_terminal_phase LaunchPhase.failed = true
is_terminal_phase LaunchPhase.incomplete = true
is_terminal_phase _ = false

pub record ConfirmationToken : Type 0 where
  pub plan_id : String
  pub revision_id : String
  pub plan_hash : String
  pub issued_at : String

pub data LaunchPlanEvent : Type 0 where
  prepared_ok : LaunchPlanEvent
  prepared_failed : String → LaunchPlanEvent
  confirmed : ConfirmationToken → LaunchPlanEvent
  rejected : LaunchPlanEvent
  process_started : LaunchPlanEvent
  apply_failed : String → LaunchPlanEvent
  observed : ObservedOutcome → Option String → LaunchPlanEvent
  switch_requested : LaunchPlanEvent
  target_requires_restart : LaunchPlanEvent

pub record LaunchPlan : Type 0 where
  pub plan_id : String
  pub operation_id : String
  pub revision_id : String
  pub config_name : String
  pub client : ClientId
  pub plan_hash : String
  pub phase : LaunchPhase
  pub created_at : String
  pub confirmed_at : Fact String
  pub failure_reason : Fact String
  pub observed_outcome : Fact ObservedOutcome

pub record CreateLaunchPlanParams : Type 0 where
  pub plan_id : String
  pub operation_id : String
  pub revision_id : String
  pub config_name : String
  pub client : ClientId
  pub plan_hash : String
  pub created_at : String

unfoldable pub create_launch_plan : CreateLaunchPlanParams → LaunchPlan
create_launch_plan params = record {
  plan_id = params.plan_id;
  operation_id = params.operation_id;
  revision_id = params.revision_id;
  config_name = params.config_name;
  client = params.client;
  plan_hash = params.plan_hash;
  phase = LaunchPhase.prepared;
  created_at = params.created_at;
  confirmed_at = unknown "not-yet-confirmed" params.created_at;
  failure_reason = unknown "no-failure-recorded" params.created_at;
  observed_outcome = unknown "not-yet-observed" params.created_at;
}

is_awaiting : LaunchPhase → Bool
is_awaiting LaunchPhase.awaiting_confirmation = true
is_awaiting _ = false

unfoldable pub validate_confirmation_token : LaunchPlan → ConfirmationToken → Checked {0} Unit
unfolding is_awaiting
validate_confirmation_token plan token =
    if not (is_awaiting plan.phase)
    then refused "plan-not-awaiting-confirmation"
    else if not (
        token.plan_id == plan.plan_id
        && token.revision_id == plan.revision_id
        && token.plan_hash == plan.plan_hash)
    then refused "stale-confirmation-token"
    else ok tt

abbrev pub with_failure : LaunchPlan → LaunchPhase → String → LaunchPlan
with_failure plan phase reason = record plan { phase = phase; failure_reason = known reason }

confirm_checked : Checked {0} Unit → LaunchPlan → ConfirmationToken → Checked LaunchPlan
confirm_checked (refused reason) plan token = refused reason
confirm_checked (ok u) plan token =
    ok (record plan { phase = LaunchPhase.applying; confirmed_at = known token.issued_at })

observed_plan : LaunchPlan → ObservedOutcome → LaunchPlan
observed_plan plan outcome = record plan {
  phase = outcome_phase outcome;
  observed_outcome = known outcome;
}

with_reason : Option String → LaunchPlan → LaunchPlan
with_reason none plan = plan
with_reason (some reason) plan = record plan { failure_reason = known reason }

switched : LaunchPlan → LaunchPlan
switched plan =
    with_failure plan LaunchPhase.requires_restart "switch-requested-new-configuration-selected"

-- the `switch` of `transitionLaunchPlan`, by the phase and the event
transition_at : LaunchPhase → LaunchPlan → LaunchPlanEvent → Checked LaunchPlan
transition_at LaunchPhase.prepared plan prepared_ok =
    ok (record plan { phase = LaunchPhase.awaiting_confirmation })
transition_at LaunchPhase.prepared plan (prepared_failed reason) =
    ok (with_failure plan LaunchPhase.failed reason)
transition_at LaunchPhase.prepared plan target_requires_restart =
    ok (with_failure plan LaunchPhase.requires_restart "already-running-session-target")
transition_at LaunchPhase.awaiting_confirmation plan (confirmed token) =
    confirm_checked (validate_confirmation_token plan token) plan token
transition_at LaunchPhase.awaiting_confirmation plan rejected =
    ok (with_failure plan LaunchPhase.cancelled "user-rejected-confirmation")
transition_at LaunchPhase.applying plan process_started =
    ok (record plan { phase = LaunchPhase.observing })
transition_at LaunchPhase.applying plan (apply_failed reason) =
    ok (with_failure plan LaunchPhase.failed reason)
transition_at LaunchPhase.observing plan (observed outcome reason) =
    ok (with_reason reason (observed_plan plan outcome))
transition_at LaunchPhase.succeeded plan switch_requested = ok (switched plan)
transition_at LaunchPhase.degraded plan switch_requested = ok (switched plan)
transition_at _ plan event = refused "invalid-transition"

unfoldable pub transition_launch_plan : LaunchPlan → LaunchPlanEvent → Checked LaunchPlan
unfolding transition_at confirm_checked observed_plan with_reason switched
transition_launch_plan plan event = transition_at plan.phase plan event
