-- ===== src/Launch/Running.antt =====
-- launch.ts, launchOmp: running a confirmed plan; and getLaunchStatus.
pub mod Ending
pub mod Expecting
pub mod Undisturbed
use agx.Prelude.{String, Option, none, some, Bool, true, false, not, List, [], ◌∷◌, if◌then◌else◌}
use agx.Prelude.Text.{texts, text_before}
use agx.Prelude.Optional.{or_else}
use agx.Prelude.Outcome.{Outcome, returned, thrown}
use agx.Prelude.Exec.{Exec, pure, throw, ◌>>=◌}
use agx.Prelude.Checked.{Checked, ok, refused}
use agx.Facts.{Fact, unknown}
use agx.Client.{ClientId, client_text, all_client_ids}
use agx.Config.{StableConfigRevision}
use agx.Activation.{
  LaunchPhase, LaunchPlan, ObservedOutcome, process_started, apply_failed, observed,
  transition_launch_plan,
}
use agx.Activation.Projection.{Applied, LaunchStatus, derive_launch_status}
use agx.Plans
use agx.Plans.{same_phase}
use agx.Queries.{Detail, detail, no_detail}
use agx.Launch.{
  invalid_transition, plan_not_found, compute_known_differences, revision_detail, find_plan,
  save_or_throw,
}
use agx.Launch.World.{
  State, Ports, Probe, ProbeLevel, SpawnResult, SpawnParams, ExitCode, LaunchContext,
}

abbrev pub apply_result_of : List String → Applied
apply_result_of [] = Applied.applied
apply_result_of (d ∷ differences) = Applied.degraded

outcome_of : Applied → ObservedOutcome
outcome_of Applied.applied = ObservedOutcome.succeeded
outcome_of Applied.degraded = ObservedOutcome.degraded

outcome_at : Option ExitCode → SpawnResult → Applied → ObservedOutcome × Option String
outcome_at (some ExitCode.zero) r apply_result = (outcome_of apply_result, none)
outcome_at (some (ExitCode.other code)) r apply_result =
    (ObservedOutcome.failed, some (texts ("omp exited with code " ∷ code ∷ [])))
outcome_at none r apply_result = (
  ObservedOutcome.incomplete,
  some (
      texts (
        "omp process ended without a determinable exit code (signal: "
        ∷ or_else r.signal "unknown"
        ∷ ")"
        ∷ [])),
)

unfoldable pub derive_outcome : SpawnResult → Applied → ObservedOutcome × Option String
unfolding outcome_of outcome_at
derive_outcome r apply_result = outcome_at r.exit_code r apply_result

-- `try { … } catch (error) { … }`, where the handler reads the message
abbrev pub attempt_message : {S A : Type 0} → Exec S A → Exec S (Checked A)
attempt_message m s =
    let (r, t) = m s in (returned (elim r [ returned a ↦ ok a | thrown e ↦ refused e ]), t)

module _ {W : Type 0} (ports : Ports W) where
  -- A transition that the code expects to be accepted, and the guarded write of its plan.
  step_saved : Checked LaunchPlan → LaunchPlan → LaunchPhase → String → Exec (State W) LaunchPlan
  step_saved (refused reason) plan expected event =
      throw (invalid_transition plan.plan_id plan.phase event reason)
  step_saved (ok plan') plan expected event =
      save_or_throw ports plan' expected
        (invalid_transition plan'.plan_id expected event "stale-plan-write")

  -- `applyFailure`, the guarded write, and the return of the failed plan
  unfoldable pub fail_launch : LaunchPlan → String → Exec (State W) LaunchPlan
  unfolding step_saved
  fail_launch plan reason =
      step_saved (transition_launch_plan plan (apply_failed reason)) plan LaunchPhase.applying
        "apply-failed"

  -- from the end of the process on
  unfoldable pub observe_launch : LaunchPlan → SpawnResult → Applied → Exec (State W) LaunchPlan
  unfolding step_saved
  observe_launch plan result apply_result = do
    started ←
        step_saved (transition_launch_plan plan process_started) plan LaunchPhase.applying
          "process-started"
    let outcome = derive_outcome result apply_result
    step_saved (transition_launch_plan started (observed outcome.0 outcome.1)) started
        LaunchPhase.observing "observed"

  abbrev spawn_omp : SpawnParams → Exec (State W) SpawnResult
  spawn_omp params = do u ← ports.on_spawning; ports.spawn params

  after_spawn : Checked SpawnResult → LaunchPlan → Applied → Exec (State W) LaunchPlan
  after_spawn (refused message) plan apply_result =
      fail_launch plan (texts ("spawn-process: " ∷ message ∷ []))
  after_spawn (ok result) plan apply_result = observe_launch plan result apply_result

  abbrev pub extension_for : ProbeLevel → String → Option String
  extension_for ProbeLevel.supported path = none
  extension_for _ path = some path

  abbrev pub is_unknown_level : ProbeLevel → Bool
  is_unknown_level ProbeLevel.unknown = true
  is_unknown_level _ = false

  abbrev pub context_of : LaunchPlan → String → List String → LaunchContext
  context_of plan launched_at differences = record {
    plan_id = plan.plan_id;
    config_name = plan.config_name;
    revision_id = plan.revision_id;
    client = plan.client;
    launched_at = launched_at;
    apply_result = apply_result_of differences;
    known_differences = differences;
    switch_entry_point_hint = "run `configs switch <id>` in the Agent System CLI";
  }

  abbrev pub params_of :
      StableConfigRevision → String → ProbeLevel → String → List String → String → SpawnParams
  params_of revision path level extension_path forwarded_args cwd = record {
    revision = revision;
    launch_context_path = path;
    extension_path = extension_for level extension_path;
    forwarded_args = forwarded_args;
    cwd = cwd;
  }

  launch_revision :
      LaunchPlan → StableConfigRevision → String → List String → String → Exec (State W) LaunchPlan
  launch_revision plan revision extension_path forwarded_args cwd = do
    let differences = compute_known_differences revision
    let apply_result = apply_result_of differences
    probe ← ports.probe
    (if is_unknown_level probe.level
        then fail_launch plan (texts ("spawn-process: " ∷ probe.reason ∷ []))
        else (do
          launched_at ← ports.now
          path ← ports.write_context (context_of plan launched_at differences)
          result ←
              attempt_message
                (spawn_omp (params_of revision path probe.level extension_path forwarded_args cwd))
          after_spawn result plan apply_result))

  launch_detail : Detail → LaunchPlan → String → List String → String → Exec (State W) LaunchPlan
  launch_detail (no_detail message) plan extension_path forwarded_args cwd =
      fail_launch plan (texts ("revision-lookup: " ∷ message ∷ []))
  launch_detail (detail revision) plan extension_path forwarded_args cwd =
      launch_revision plan revision extension_path forwarded_args cwd

  launch_found :
      Option LaunchPlan → String → String → List String → String → Exec (State W) LaunchPlan
  launch_found none id extension_path forwarded_args cwd = throw (plan_not_found id)
  launch_found (some plan) id extension_path forwarded_args cwd =
      if not (same_phase plan.phase LaunchPhase.applying)
      then throw (
          invalid_transition id plan.phase "spawn-process"
            "launchOmp requires a plan already in the \"applying\" phase (confirm it first)")
      else do
        found ← revision_detail ports plan.revision_id
        launch_detail found plan extension_path forwarded_args cwd

  unfoldable pub launch_omp : String → String → List String → String → Exec (State W) LaunchPlan
  unfolding after_spawn launch_revision launch_detail launch_found
  launch_omp id extension_path forwarded_args cwd = do
    found ← find_plan id
    launch_found found id extension_path forwarded_args cwd
