-- ===== src/Launch/World.antt =====
-- application/ports.ts, as launch.ts uses it: what a launch asks for and what it is answered. A
-- call may throw, and may change the state as another process would, the stored plans included.
use agx.Prelude.{String, Option, Bool, List}
use agx.Prelude.Exec.{Exec}
use agx.Facts.{Fact}
use agx.Client.{ClientId}
use agx.Config.{StableConfigRevision}
use agx.Activation.Projection.{Applied}
use agx.Plans.{Plans}
use agx.Queries.{Lookup}

pub record State (W : Type 0) : Type 0 where
  pub plans : Plans
  pub world : W

pub data ProbeLevel : Type 0 where
  supported degraded unsupported unknown : ProbeLevel

pub record Probe : Type 0 where
  pub level : ProbeLevel
  pub reason : String

-- the version is the constant 1
pub record LaunchContext : Type 0 where
  pub plan_id : String
  pub config_name : String
  pub revision_id : String
  pub client : ClientId
  pub launched_at : String
  pub apply_result : Applied
  pub known_differences : List String
  pub switch_entry_point_hint : String

pub record SpawnParams : Type 0 where
  pub revision : StableConfigRevision
  pub launch_context_path : String
  pub extension_path : Option String
  pub forwarded_args : List String
  pub cwd : String

-- An exit code is printed as it is; `success` says that it is zero.
pub data ExitCode : Type 0 where
  zero : ExitCode
  other : String → ExitCode

pub record SpawnResult : Type 0 where
  pub exit_code : Option ExitCode
  pub signal : Option String

pub record Ports (W : Type 0) : Type 0 where
  -- `new Date().toISOString()` and `crypto.randomUUID()`
  pub now : Exec (State W) String
  pub random_id : Exec (State W) String
  pub find_revision : String → Exec (State W) Lookup
  -- whether the plan repository has `saveIfPhase`
  pub guards_writes : Bool
  pub probe : Exec (State W) Probe
  pub write_context : LaunchContext → Exec (State W) String
  pub on_spawning : Exec (State W) Unit
  pub spawn : SpawnParams → Exec (State W) SpawnResult
  pub detect_omp_version : Exec (State W) (Fact String)
  pub detect_claude_version : Option (Exec (State W) (Fact String))
