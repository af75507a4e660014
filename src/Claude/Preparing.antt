-- ===== src/Claude/Preparing.antt =====
-- application/claude-launch.ts: plans for a new process, and for one that already runs.
use agx.Prelude.{String, none, some, false, []}
use agx.Prelude.Exec.{Exec, pure, throw, ◌>>=◌}
use agx.Prelude.Checked.{Checked, ok, refused}
use agx.Client.{ClientId}
use agx.Activation.{LaunchPlan, target_requires_restart, transition_launch_plan}
use agx.Launch.{invalid_transition, revision_detail, save_plan, new_plan, finish_prepare, event_of}
use agx.Launch.World.{State, Ports}
use agx.Claude.AdapterPlan.{LaunchTarget, fresh, already_running, determine_launch_target}
use agx.Claude.World.{ObservationStage, LaunchOutcome}

module _ {W : Type 0} (ports : Ports W) where
  unfoldable pub prepare_fresh : String → Exec (State W) LaunchPlan
  unfolding finish_prepare
  prepare_fresh revision_id = do
    created_at ← ports.now
    found ← revision_detail ports revision_id
    plan_uuid ← ports.random_id
    op_uuid ← ports.random_id
    let plan = new_plan ports revision_id ClientId.claude_code created_at found plan_uuid op_uuid
    finish_prepare ports (transition_launch_plan plan (event_of found)) plan found

  abbrev restart_outcome : LaunchPlan → LaunchOutcome
  restart_outcome plan = record {
    plan = plan;
    stage = ObservationStage.planned;
    manifest = none;
    adapter_plan = none;
    affected = [];
    recovery_action = some "需要重启当前 Claude Code 会话后重新应用：本产品无法对一个已经在运行的、非本产品拥有的会话热更新装配边界。";
  }

  require_restart : Checked LaunchPlan → LaunchPlan → Exec (State W) LaunchOutcome
  require_restart (refused reason) plan =
      throw (invalid_transition plan.plan_id plan.phase "target-requires-restart" reason)
  require_restart (ok plan') plan = do saved ← save_plan plan'; pure (restart_outcome saved)

  -- the `switch` over the target
  at_target : LaunchTarget → LaunchPlan → Exec (State W) LaunchOutcome
  unfolding require_restart
  at_target already_running plan =
      require_restart (transition_launch_plan plan target_requires_restart) plan
  at_target fresh plan =
      throw
        "prepareClaudeAlreadyRunningLaunchPlan requires determineClaudeLaunchTarget to resolve to \"already-running\", got \"fresh\""

  unfoldable pub prepare_already_running : String → Exec (State W) LaunchOutcome
  unfolding at_target
  prepare_already_running revision_id = do
    created_at ← ports.now
    found ← revision_detail ports revision_id
    plan_uuid ← ports.random_id
    op_uuid ← ports.random_id
    at_target (determine_launch_target false)
        (new_plan ports revision_id ClientId.claude_code created_at found plan_uuid op_uuid)
