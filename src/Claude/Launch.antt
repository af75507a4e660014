-- ===== src/Claude/Launch.antt =====
-- application/claude-launch.ts, launchClaudeFresh: running a confirmed plan.
pub mod Landing
pub mod Ending
pub mod Completing
use agx.Prelude.{
  String, Option, none, some, Bool, true, false, not, List, [], ◌∷◌, ◌++◌, map, nat_eq, ◌==◌,
  if◌then◌else◌,
}
use agx.Prelude.Text.{texts, join}
use agx.Prelude.Outcome.{returned}
use agx.Prelude.Exec.{Exec, pure, throw, ◌>>=◌, finally_do}
use agx.Prelude.Checked.{Checked, ok, refused}
use agx.Client.{ClientId, client_text}
use agx.Config.{StableConfigRevision}
use agx.Activation.{
  LaunchPhase, LaunchPlan, ObservedOutcome, process_started, apply_failed, observed,
  transition_launch_plan,
}
use agx.Plans.{same_phase, client_tag}
use agx.Queries.{Detail, detail, no_detail}
use agx.Launch.{invalid_transition, plan_not_found, revision_detail, find_plan, save_plan}
use agx.Launch.World.{State, Ports, SpawnResult}
use agx.Launch.Running.{attempt_message}
use agx.Claude.Manifest.{Manifest, ManifestResult, compiled, blocked, compile_manifest}
use agx.Claude.AdapterPlan.{AdapterPlan, compile_adapter_plan, argv_contributing_ids}
use agx.Claude.World.{
  Materialization, ClaudeContext, ClaudeSpawnParams, ClaudePorts, ObservationStage, LaunchOutcome,
}
use agx.Claude.Delivery.{
  BlockedDelivery, Deliveries, deliveries_of, blocked_of, dynamic_ids, final_argv,
  known_differences, apply_result, derive_claude_outcome,
}

abbrev pub is_failure : ObservedOutcome → Bool
is_failure ObservedOutcome.failed = true
is_failure ObservedOutcome.incomplete = true
is_failure _ = false

abbrev pub recovery_of : ObservedOutcome → Option String
recovery_of ObservedOutcome.failed = some "查看 claude 进程退出码与输出，确认宿主是否拒绝了本次装配的硬控制边界后再重试"
recovery_of ObservedOutcome.incomplete = some "确认 claude 进程未被信号意外终止（如手动结束进程或系统重启）后重试"
recovery_of _ = none

-- What a launch has compiled, and where it runs.
pub record Assembly : Type 0 where
  pub revision : StableConfigRevision
  pub manifest : Manifest
  pub adapter : AdapterPlan
  pub dir : String

abbrev pub implicated : Assembly → Deliveries → List String
implicated a d = argv_contributing_ids a.manifest.capability_policy ++ dynamic_ids d

abbrev pub affected_by : ObservedOutcome → Assembly → Deliveries → List String
affected_by o a d = if is_failure o then implicated a d else a.manifest.degraded_capabilities

abbrev pub failed_outcome :
    Option Manifest → Option AdapterPlan → List String → String → LaunchPlan → LaunchOutcome
failed_outcome manifest adapter affected recovery plan = record {
  plan = plan;
  stage = ObservationStage.planned;
  manifest = manifest;
  adapter_plan = adapter;
  affected = affected;
  recovery_action = some recovery;
}

abbrev pub observed_outcome_of :
    ObservedOutcome → Assembly → Deliveries → LaunchPlan → LaunchOutcome
observed_outcome_of o a d plan = record {
  plan = plan;
  stage = ObservationStage.observed;
  manifest = some a.manifest;
  adapter_plan = some a.adapter;
  affected = affected_by o a d;
  recovery_action = recovery_of o;
}

abbrev pub content_recovery : String
content_recovery = "确认对应内容（Instructions/Skills/MCP）的来源路径存在且可读后重试，或改用不引用该内容的配置修订"

abbrev pub context_of : LaunchPlan → String → Assembly → Materialization → ClaudeContext
context_of plan launched_at a m = record {
  plan_id = plan.plan_id;
  operation_id = plan.operation_id;
  revision_id = plan.revision_id;
  config_name = plan.config_name;
  launched_at = launched_at;
  apply_result = apply_result a.revision a.manifest m;
  known_differences = known_differences a.revision a.manifest m;
  adapter_plan_hash = a.adapter.plan_hash;
}

abbrev pub params_of : Assembly → Deliveries → ClaudeSpawnParams
params_of a d = record { argv = final_argv a.adapter d; config_dir = a.dir; cwd = a.dir }

module _ {W : Type 0} (ports : Ports W) (claude : ClaudePorts W) where
  -- a transition that the code expects to be accepted, and the write of its plan
  step_saved : Checked LaunchPlan → LaunchPlan → String → Exec (State W) LaunchPlan
  step_saved (refused reason) plan event =
      throw (invalid_transition plan.plan_id plan.phase event reason)
  step_saved (ok plan') plan event = save_plan plan'

  -- `applyFailure`, the write, and the outcome of a launch that took no place
  unfoldable pub fail_launch :
      LaunchPlan
      → String
      → Option Manifest
      → Option AdapterPlan
      → List String
      → String
      → Exec (State W) LaunchOutcome
  unfolding step_saved
  fail_launch plan reason manifest adapter affected recovery = do
    failed ← step_saved (transition_launch_plan plan (apply_failed reason)) plan "apply-failed"
    pure (failed_outcome manifest adapter affected recovery failed)

  abbrev fail_assembled :
      LaunchPlan → String → Assembly → List String → String → Exec (State W) LaunchOutcome
  fail_assembled plan reason a affected recovery =
      fail_launch plan reason (some a.manifest) (some a.adapter) affected recovery

  -- from the end of the process on
  unfoldable pub observe_launch :
      LaunchPlan
      → SpawnResult
      → Assembly
      → Deliveries
      → Materialization
      → Exec (State W) LaunchOutcome
  unfolding step_saved
  observe_launch plan result a d m = do
    started ← step_saved (transition_launch_plan plan process_started) plan "process-started"
    let outcome = derive_claude_outcome result (apply_result a.revision a.manifest m)
    ended ←
        step_saved (transition_launch_plan started (observed outcome.0 outcome.1)) started
          "observed"
    pure (observed_outcome_of outcome.0 a d ended)

  after_spawn :
      Checked SpawnResult
      → LaunchPlan
      → Assembly
      → Deliveries
      → Materialization
      → Exec (State W) LaunchOutcome
  after_spawn (refused message) plan a d m =
      fail_assembled plan (texts ("spawn-process: " ∷ message ∷ [])) a (implicated a d)
        "确认 claude 二进制已安装并可从 PATH 直接执行后重试"
  after_spawn (ok result) plan a d m = observe_launch plan result a d m

  abbrev spawn_claude : ClaudeSpawnParams → Exec (State W) SpawnResult
  spawn_claude params = do u ← ports.on_spawning; claude.spawn params

  pub launch_delivered :
      List BlockedDelivery
      → LaunchPlan
      → Assembly
      → Deliveries
      → Materialization
      → Exec (State W) LaunchOutcome
  launch_delivered (b ∷ blocks) plan a d m =
      fail_assembled plan
        (texts (
          "content-materialization-blocked: "
          ∷ join "; " (map (λ (b : BlockedDelivery). b.reason) (b ∷ blocks))
          ∷ []))
        a (map (λ (b : BlockedDelivery). b.capability_id) (b ∷ blocks)) content_recovery
  launch_delivered [] plan a d m = do
    launched_at ← ports.now
    path ← claude.write_context (context_of plan launched_at a m)
    result ← attempt_message (spawn_claude (params_of a d))
    after_spawn result plan a d m

  launch_materialized :
      Checked Materialization → LaunchPlan → Assembly → Exec (State W) LaunchOutcome
  launch_materialized (refused message) plan a =
      fail_assembled plan (texts ("content-materialization: " ∷ message ∷ [])) a []
        "确认内容来源路径可读、本机磁盘可写后重试"
  launch_materialized (ok m) plan a =
      let d = deliveries_of a.revision a.manifest m in launch_delivered (blocked_of d) plan a d m

  -- the `try` block after the directory is there
  launch_inside : LaunchPlan → Assembly → Exec (State W) LaunchOutcome
  launch_inside plan a = do
    m ← attempt_message (claude.materialize a.revision a.dir)
    launch_materialized m plan a

  launch_in :
      Checked String
      → LaunchPlan
      → StableConfigRevision
      → Manifest
      → AdapterPlan
      → Exec (State W) LaunchOutcome
  launch_in (refused message) plan revision manifest adapter =
      fail_launch plan (texts ("invocation-dir: " ∷ message ∷ [])) (some manifest) (some adapter) []
        "确认本机磁盘可写且 Agent System 状态目录权限正常后重试"
  launch_in (ok dir) plan revision manifest adapter =
      finally_do
        (launch_inside plan
          (record { revision = revision; manifest = manifest; adapter = adapter; dir = dir }))
        (claude.cleanup_dir dir)

  launch_compiled :
      ManifestResult → LaunchPlan → StableConfigRevision → Exec (State W) LaunchOutcome
  launch_compiled (blocked b) plan revision =
      fail_launch plan (texts ("capability-blocked: " ∷ join ", " b.missing_required ∷ [])) none
        none b.missing_required "确认 Claude Code 版本/环境支持上述必需能力（重新执行 probe 验证），或改用受支持能力覆盖的配置修订后重试"
  launch_compiled (compiled manifest) plan revision = do
    dir ← attempt_message (claude.prepare_dir plan.operation_id)
    launch_in dir plan revision manifest (compile_adapter_plan manifest)

  launch_detail : Detail → LaunchPlan → Exec (State W) LaunchOutcome
  launch_detail (no_detail message) plan =
      fail_launch plan (texts ("revision-lookup: " ∷ message ∷ [])) none none []
        "重新选择一个当前存在且受支持的配置修订后重试"
  launch_detail (detail revision) plan = do
    probed ← claude.probe
    now ← (λ s. (returned (claude.stamp s), s))
    launch_compiled (compile_manifest revision probed now) plan revision

  launch_found : Option LaunchPlan → String → Exec (State W) LaunchOutcome
  launch_found none id = throw (plan_not_found id)
  launch_found (some plan) id =
      if not (client_tag plan.client == client_tag ClientId.claude_code)
      then throw (
          invalid_transition id plan.phase "spawn-process" (
            texts (
              "launchClaudeFresh requires a plan whose client is \"claude-code\", got \""
              ∷ client_text plan.client
              ∷ "\""
              ∷ [])))
      else if not (same_phase plan.phase LaunchPhase.applying)
      then throw (
          invalid_transition id plan.phase "spawn-process"
            "launchClaudeFresh requires a plan already in the \"applying\" phase (confirm it first)")
      else do found ← revision_detail ports plan.revision_id; launch_detail found plan

  unfoldable pub launch_claude_fresh : String → Exec (State W) LaunchOutcome
  unfolding after_spawn launch_delivered launch_materialized launch_inside launch_in launch_compiled
      launch_detail launch_found
  launch_claude_fresh id = do found ← find_plan id; launch_found found id
