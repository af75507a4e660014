-- ===== src/Launch/Running/Expecting.antt =====
-- launch.ts, launchOmp: what the process and the launch context are given, and what the end of the
-- process stands for, written down once more from the revision and the probe.
use agx.Prelude.{
  String, ◌≡◌, refl, ap, Option, some, none, Bool, true, false, ◌||◌, List, [], ◌∷◌, ◌++◌,
}
use agx.Config.{StableConfigRevision, CapabilityReference}
use agx.Activation.{LaunchPlan, ObservedOutcome}
use agx.Activation.Projection.{Applied}
use agx.Launch.{compute_known_differences, noted_if_any}
use agx.Launch.Endings.{has_any, applied_but, end_of}
use agx.Launch.World.{Ports, ProbeLevel, SpawnResult, SpawnParams, ExitCode, LaunchContext}
use agx.Launch.Running.{
  apply_result_of, outcome_of, outcome_at, derive_outcome, context_of, params_of,
}

-- Whether a part of the revision is not realised: its instructions, MCP servers, hooks or plugins.
abbrev pub unrealised : StableConfigRevision → Bool
unrealised r = has_any r.instructions || has_any r.mcp || has_any r.hooks || has_any r.plugins

-- What the end of a process of the OMP client stands for.
abbrev pub omp_end : SpawnResult → Bool → ObservedOutcome × Option String
omp_end result left_out =
    end_of "omp exited with code " "omp process ended without a determinable exit code (signal: "
      result.exit_code result.signal left_out

derive_at :
    (result : SpawnResult) (code : Option ExitCode) (signal : Option String) (left : Bool)
    → result.signal ≡ signal
    → outcome_at code result (applied_but left)
      ≡ end_of "omp exited with code "
          "omp process ended without a determinable exit code (signal: " code signal left
unfolding outcome_at outcome_of
derive_at result (some ExitCode.zero) signal false e = refl
derive_at result (some ExitCode.zero) signal true e = refl
derive_at result (some (ExitCode.other code)) signal left e = refl
derive_at result none (some signal) left e = rw e refl
derive_at result none none left e = rw e refl

pub derive_lem :
    (result : SpawnResult) (left : Bool)
    → derive_outcome result (applied_but left) ≡ omp_end result left
unfolding derive_outcome
derive_lem result left = derive_at result result.exit_code result.signal left refl

apply_result_by_parts :
    (instructions mcp hooks plugins : List CapabilityReference)
    → apply_result_of (
        noted_if_any instructions "instructions-content-not-materialized-in-mvp"
        ++ noted_if_any mcp "mcp-content-not-materialized-in-mvp"
        ++ noted_if_any hooks "hooks-content-not-materialized-in-mvp"
        ++ noted_if_any plugins "plugins-content-not-materialized-in-mvp")
      ≡ applied_but (has_any instructions || has_any mcp || has_any hooks || has_any plugins)
apply_result_by_parts (i ∷ is) mcp hooks plugins = refl
apply_result_by_parts [] (m ∷ mcp) hooks plugins = refl
apply_result_by_parts [] [] (h ∷ hooks) plugins = refl
apply_result_by_parts [] [] [] (p ∷ plugins) = refl
apply_result_by_parts [] [] [] [] = refl

pub apply_result_lem :
    (r : StableConfigRevision)
    → apply_result_of (compute_known_differences r) ≡ applied_but (unrealised r)
unfolding compute_known_differences
apply_result_lem r = apply_result_by_parts r.instructions r.mcp r.hooks r.plugins

module _ {W : Type 0} (ports : Ports W) where
  -- The path of the extension is passed on unless the client is supported without it.
  abbrev pub extension_unless : ProbeLevel → String → Option String
  extension_unless ProbeLevel.supported path = none
  extension_unless ProbeLevel.degraded path = some path
  extension_unless ProbeLevel.unsupported path = some path
  extension_unless ProbeLevel.unknown path = some path

  -- What the process is started with.
  abbrev pub started_with :
      StableConfigRevision → String → ProbeLevel → String → List String → String → SpawnParams
  started_with revision path level extension_path args cwd = record {
    revision = revision;
    launch_context_path = path;
    extension_path = extension_unless level extension_path;
    forwarded_args = args;
    cwd = cwd;
  }

  pub params_lem :
      (revision : StableConfigRevision) (path : String) (level : ProbeLevel)
      (extension_path : String) (args : List String) (cwd : String)
      → params_of ports revision path level extension_path args cwd
        ≡ started_with revision path level extension_path args cwd
  params_lem revision path ProbeLevel.supported extension_path args cwd = refl
  params_lem revision path _ extension_path args cwd = refl

  -- What the launch context holds.
  abbrev pub context_with : LaunchPlan → String → StableConfigRevision → LaunchContext
  context_with plan time revision = record {
    plan_id = plan.plan_id;
    config_name = plan.config_name;
    revision_id = plan.revision_id;
    client = plan.client;
    launched_at = time;
    apply_result = applied_but (unrealised revision);
    known_differences = compute_known_differences revision;
    switch_entry_point_hint = "run `configs switch <id>` in the Agent System CLI";
  }

  pub context_lem :
      (plan : LaunchPlan) (time : String) (revision : StableConfigRevision)
      → context_of ports plan time (compute_known_differences revision)
        ≡ context_with plan time revision
  context_lem plan time revision =
      ap (λ (how : Applied). record (context_with plan time revision) { apply_result = how })
        (apply_result_lem revision)
