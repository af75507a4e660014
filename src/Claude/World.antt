-- ===== src/Claude/World.antt =====
-- application/ports.ts and claude-launch.ts: what a launch of Claude Code asks for, and its outcome.
use agx.Prelude.{String, Option, List}
use agx.Prelude.Exec.{Exec}
use agx.Config.{StableConfigRevision}
use agx.Activation.{LaunchPlan}
use agx.Activation.Projection.{Applied}
use agx.Launch.World.{State, SpawnResult}
use agx.Claude.Capability.{CapabilityNote}
use agx.Claude.Manifest.{Manifest}
use agx.Claude.AdapterPlan.{AdapterPlan}

-- ClaudeMaterializationFailure
pub record MaterializationFailure : Type 0 where
  pub name : String
  pub reason : String

-- One group of contents: where it was written to (or the text itself), and what failed.
pub record MaterializedGroup : Type 0 where
  pub content : Option String
  pub failures : List MaterializationFailure

-- ClaudeContentMaterializationResult
pub record Materialization : Type 0 where
  pub instructions : MaterializedGroup
  pub skills : MaterializedGroup
  pub mcp : MaterializedGroup

-- ClaudeLaunchContext; the version, the client and the target are constants
pub record ClaudeContext : Type 0 where
  pub plan_id : String
  pub operation_id : String
  pub revision_id : String
  pub config_name : String
  pub launched_at : String
  pub apply_result : Applied
  pub known_differences : List String
  pub adapter_plan_hash : String

-- ClaudeSpawnParams; the environment is CLAUDE_CONFIG_DIR alone
pub record ClaudeSpawnParams : Type 0 where
  pub argv : List String
  pub config_dir : String
  pub cwd : String

-- Ports that a launch of Claude Code has beside those of every launch. `stamp` is what the clock
-- shows.
pub record ClaudePorts (W : Type 0) : Type 0 where
  pub stamp : State W → String
  pub probe : Exec (State W) (List CapabilityNote)
  pub prepare_dir : String → Exec (State W) String
  pub cleanup_dir : String → Exec (State W) Unit
  pub materialize : StableConfigRevision → String → Exec (State W) Materialization
  pub write_context : ClaudeContext → Exec (State W) String
  pub spawn : ClaudeSpawnParams → Exec (State W) SpawnResult

-- ObservationStage of activation.ts
pub data ObservationStage : Type 0 where
  planned launched observed verified : ObservationStage

-- ClaudeLaunchOutcome
pub record LaunchOutcome : Type 0 where
  pub plan : LaunchPlan
  pub stage : ObservationStage
  pub manifest : Option Manifest
  pub adapter_plan : Option AdapterPlan
  pub affected : List String
  pub recovery_action : Option String
