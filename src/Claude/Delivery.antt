-- ===== src/Claude/Delivery.antt =====
-- application/claude-launch.ts: which contents are handed to the client, what keeps a launch from
-- taking place, and what its end stands for.
pub mod Expecting
pub mod Failing
use agx.Prelude.{
  String, Option, none, some, Bool, true, false, not, ◌&&◌, List, [], ◌∷◌, ◌++◌, map, find, nat_eq,
  string_eq, ◌==◌, if◌then◌else◌,
}
use agx.Prelude.Text.{texts, join}
use agx.Prelude.Optional.{or_else}
use agx.Prelude.Exec.{Exec, pure, throw, ◌>>=◌, finally_do}
use agx.Prelude.Checked.{Checked, ok, refused}
use agx.Client.{ClientId, client_text}
use agx.Config.{StableConfigRevision, CapabilityReference}
use agx.Config.Compare.{sort_names}
use agx.Activation.{
  LaunchPhase, LaunchPlan, ObservedOutcome, process_started, apply_failed, observed,
  transition_launch_plan,
}
use agx.Activation.Projection.{Applied}
use agx.Plans.{same_phase, client_tag}
use agx.Queries.{Detail, detail, no_detail}
use agx.Launch.{invalid_transition, plan_not_found, revision_detail, find_plan, save_plan}
use agx.Launch.World.{State, Ports, SpawnResult, ExitCode}
use agx.Launch.Running.{attempt_message}
use agx.Claude.Capability.{CapabilityNote}
use agx.Claude.Manifest.{
  Manifest, ManifestResult, ManifestStatus, compiled, blocked, non_empty, compile_manifest,
}
use agx.Claude.AdapterPlan.{AdapterPlan, compile_adapter_plan, argv_contributing_ids}
use agx.Claude.World.{
  MaterializationFailure, MaterializedGroup, Materialization, ClaudeContext, ClaudeSpawnParams,
  ClaudePorts, ObservationStage, LaunchOutcome,
}

abbrev pub has_failures : List MaterializationFailure → Bool
has_failures [] = false
has_failures (f ∷ failures) = true

abbrev note_when : Bool → String → List String
note_when true note = note ∷ []
note_when false note = []

abbrev degraded_note : List String → List String
degraded_note [] = []
degraded_note (id ∷ ids) =
    texts ("degraded-capabilities: " ∷ join ", " (sort_names (id ∷ ids)) ∷ []) ∷ []

-- computeClaudeKnownDifferences
unfoldable pub known_differences : StableConfigRevision → Manifest → Materialization → List String
known_differences r manifest m =
    note_when (non_empty r.instructions && has_failures m.instructions.failures)
      "instructions-content-not-materialized-in-fresh-launch"
    ++ note_when (non_empty r.skills && has_failures m.skills.failures)
        "skills-content-not-materialized-in-fresh-launch"
    ++ note_when (non_empty r.mcp && has_failures m.mcp.failures)
        "mcp-content-not-materialized-in-fresh-launch"
    ++ note_when (non_empty r.hooks) "hooks-content-not-materialized-in-fresh-launch"
    ++ note_when (non_empty r.plugins) "plugins-content-not-materialized-in-fresh-launch"
    ++ degraded_note manifest.degraded_capabilities

abbrev required_flag : Option CapabilityNote → Bool
required_flag none = true
required_flag (some note) = note.required

-- requiredForContentGroup
unfoldable pub required_for : Manifest → String → Bool
required_for manifest id =
    required_flag (find (λ (n : CapabilityNote). n.capability_id == id) manifest.capability_policy)

-- describeMaterializationFailures
unfoldable pub describe_failures : List MaterializationFailure → String
describe_failures [] = "未知原因"
describe_failures failures =
    join "; "
      (map (λ (f : MaterializationFailure). texts (f.name ∷ "(" ∷ f.reason ∷ ")" ∷ [])) failures)

pub record BlockedDelivery : Type 0 where
  pub capability_id : String
  pub reason : String

-- ContentGroupDeliveryPlan
pub record Delivery : Type 0 where
  pub argv : List String
  pub blocked : Option BlockedDelivery

abbrev nothing_delivered : Delivery
nothing_delivered = record { argv = []; blocked = none }

-- resolveContentGroupDelivery; the arguments are built from what was materialized
unfoldable pub resolve_delivery :
    Bool → List MaterializationFailure → List String → Bool → String → Delivery
resolve_delivery false failures argv required id = nothing_delivered
resolve_delivery true [] argv required id = record { argv = argv; blocked = none }
resolve_delivery true failures argv true id = record {
  argv = [];
  blocked = some (record {
    capability_id = id;
    reason = texts (id ∷ " 内容物化失败：" ∷ describe_failures failures ∷ []);
  });
}
resolve_delivery true failures argv false id = nothing_delivered

abbrev if_content : Option String → (String → List String) → List String
if_content none argv = []
if_content (some content) argv = argv content

abbrev pub prompt_capability : String
prompt_capability = "claude.append-system-prompt-delivery"

abbrev pub plugin_capability : String
plugin_capability = "claude.plugin-dir-delivery"

abbrev pub mcp_capability : String
mcp_capability = "claude.mcp-project-scope-control"

unfoldable pub instructions_delivery : StableConfigRevision → Manifest → Materialization → Delivery
instructions_delivery r manifest m =
    resolve_delivery (non_empty r.instructions) m.instructions.failures
      (if_content m.instructions.content (λ c. "--append-system-prompt" ∷ c ∷ []))
      (required_for manifest prompt_capability) prompt_capability

unfoldable pub skills_delivery : StableConfigRevision → Manifest → Materialization → Delivery
skills_delivery r manifest m =
    resolve_delivery (non_empty r.skills) m.skills.failures
      (if_content m.skills.content (λ c. "--plugin-dir" ∷ c ∷ []))
      (required_for manifest plugin_capability) plugin_capability

unfoldable pub mcp_delivery : StableConfigRevision → Manifest → Materialization → Delivery
mcp_delivery r manifest m =
    resolve_delivery (non_empty r.mcp) m.mcp.failures
      (if_content m.mcp.content (λ c. "--mcp-config" ∷ c ∷ "--strict-mcp-config" ∷ []))
      (required_for manifest mcp_capability) mcp_capability

pub record Deliveries : Type 0 where
  pub instructions : Delivery
  pub skills : Delivery
  pub mcp : Delivery

unfoldable pub deliveries_of : StableConfigRevision → Manifest → Materialization → Deliveries
deliveries_of r manifest m = record {
  instructions = instructions_delivery r manifest m;
  skills = skills_delivery r manifest m;
  mcp = mcp_delivery r manifest m;
}

abbrev pub listed : Option BlockedDelivery → List BlockedDelivery
listed none = []
listed (some b) = b ∷ []

-- blockedDeliveries
unfoldable pub blocked_of : Deliveries → List BlockedDelivery
blocked_of d = listed d.instructions.blocked ++ listed d.skills.blocked ++ listed d.mcp.blocked

abbrev id_when : List String → String → List String
id_when [] id = []
id_when (a ∷ argv) id = id ∷ []

-- dynamicContentCapabilityIds
unfoldable pub dynamic_ids : Deliveries → List String
dynamic_ids d =
    id_when d.instructions.argv prompt_capability
    ++ id_when d.skills.argv plugin_capability
    ++ id_when d.mcp.argv mcp_capability

-- finalArgv
unfoldable pub final_argv : AdapterPlan → Deliveries → List String
final_argv adapter d = adapter.argv ++ d.instructions.argv ++ d.skills.argv ++ d.mcp.argv

abbrev apply_result_at : List String → ManifestStatus → Applied
apply_result_at [] ManifestStatus.ready = Applied.applied
apply_result_at _ _ = Applied.degraded

-- applyResult
unfoldable pub apply_result : StableConfigRevision → Manifest → Materialization → Applied
apply_result r manifest m =
    apply_result_at (known_differences r manifest m) manifest.manifest_status

abbrev outcome_of : Applied → ObservedOutcome
outcome_of Applied.applied = ObservedOutcome.succeeded
outcome_of Applied.degraded = ObservedOutcome.degraded

outcome_at : Option ExitCode → SpawnResult → Applied → ObservedOutcome × Option String
outcome_at (some ExitCode.zero) r how = (outcome_of how, none)
outcome_at (some (ExitCode.other code)) r how =
    (ObservedOutcome.failed, some (texts ("claude exited with code " ∷ code ∷ [])))
outcome_at none r how = (
  ObservedOutcome.incomplete,
  some (
      texts (
        "claude process ended without a determinable exit code (signal: "
        ∷ or_else r.signal "unknown"
        ∷ ")"
        ∷ [])),
)

-- deriveClaudeObservedOutcome
unfoldable pub derive_claude_outcome : SpawnResult → Applied → ObservedOutcome × Option String
unfolding outcome_at
derive_claude_outcome r how = outcome_at r.exit_code r how
