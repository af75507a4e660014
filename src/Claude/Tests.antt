-- ===== src/Claude/Tests.antt =====
-- A launch with one skill: once its contents are there, and once they are not.
use agx.Prelude.{
  String, ℕ, ◌≡◌, refl, none, some, true, List, [], ◌∷◌, string_eq, ◌==◌, if◌then◌else◌, Option,
}
use agx.Prelude.Dict.{get, put}
use agx.Prelude.Outcome.{returned}
use agx.Facts.{known}
use agx.Client.{ClientId}
use agx.Config.{StableConfigRevision, CapabilityReference, CapabilityKind, SourceCategory}
use agx.Activation.{LaunchPhase, LaunchPlan, ObservedOutcome}
use agx.Activation.Tests.{applying}
use agx.Queries.{Lookup}
use agx.Launch.World.{Ports, ProbeLevel, ExitCode}
use agx.Launch.Tests.{base, answer, ports, holding}
use agx.Claude.Capability.{CapabilityNote, ValidationMethod}
use agx.Claude.Manifest.{
  Manifest, ManifestStatus, compiled, compile_manifest, policy_of, resolve_capability_note,
  sort_notes, compute_manifest_hash,
}
use agx.Claude.Manifest.Compiling.{permission_lem}
use agx.Claude.AdapterPlan.{compile_adapter_plan}
use agx.Prelude.Text.{join}
use agx.Claude.World.{
  ClaudePorts, ClaudeSpawnParams, Materialization, MaterializedGroup, LaunchOutcome,
}
use agx.Claude.Delivery.{deliveries_of, blocked_of, required_for}
use agx.Claude.Delivery.Expecting.{started_with}
use agx.Claude.Delivery.Failing.{failing_ids}
use agx.Claude.Launch.{failed_outcome, observed_outcome_of, content_recovery, launch_claude_fresh}
use agx.Claude.Launch.Completing.{
  Prepared, Finished, failed, blocked_reason, assembly_of, blocked_lem, complete_lem,
}
use agx.Claude.Launch.Landing.{Landed}
use agx.Claude.Launch.Ending.{launch_claude-Landed}

abbrev skill : CapabilityReference
skill = record {
  kind = CapabilityKind.skill;
  name = "review";
  source_category = known SourceCategory.project_capability;
  summary = known "";
  source_ref = known "skills/review";
  content_fingerprint = known "f";
}

abbrev revision : StableConfigRevision
revision = record base { skills = skill ∷ [] }

abbrev note_on : String → CapabilityNote
note_on id = record {
  capability_id = id;
  subject = "";
  required = true;
  status = ProbeLevel.supported;
  validation_method = ValidationMethod.mechanical;
  evidence_ref = "";
  observed_at = "";
}

abbrev notes : List CapabilityNote
notes =
    note_on "claude.permission-mode-control"
    ∷ note_on "claude.setting-sources-control"
    ∷ note_on "claude.plugin-dir-delivery"
    ∷ []

abbrev plan : LaunchPlan
plan = record applying { client = ClientId.claude_code }

abbrev group : MaterializedGroup
group = record { content = none; failures = [] }

abbrev contents : Materialization
contents = record {
  instructions = group;
  skills = record { content = some "/tmp/plugin"; failures = [] };
  mcp = group;
}

abbrev broken : Materialization
broken = record contents {
  skills = record { content = none; failures = record { name = "review"; reason = "gone" } ∷ [] };
}

abbrev all_ports : Ports ℕ
all_ports = record ports { find_revision = λ id. answer (Lookup.revision revision) }

-- A client that ends well if it is given just the flags and the skill.
abbrev exit_of : ClaudeSpawnParams → Option ExitCode
exit_of p =
    if join " " p.argv
      == "--permission-mode manual --setting-sources project --plugin-dir /tmp/plugin"
    then some ExitCode.zero
    else none

abbrev claude_ports : Materialization → ClaudePorts ℕ
claude_ports m = record {
  stamp = λ s. "now";
  probe = answer notes;
  prepare_dir = λ id. answer "/tmp/d";
  cleanup_dir = λ dir. answer tt;
  materialize = λ r dir. answer m;
  write_context = λ c. answer "/tmp/context.json";
  spawn = λ p. answer (record { exit_code = exit_of p; signal = none });
}

abbrev manifest : Manifest
manifest = record {
  revision_id = "rev-1";
  config_name = "base";
  capability_policy = notes;
  instructions = [];
  skills = skill ∷ [];
  mcp = [];
  manifest_status = ManifestStatus.ready;
  degraded_capabilities = [];
  manifest_hash = compute_manifest_hash revision notes;
}

has_compiled : compile_manifest revision notes "now" ≡ compiled manifest
unfolding compile_manifest policy_of resolve_capability_note sort_notes
has_compiled = refl

permission_example :
    (rest : List String) × ((compile_adapter_plan manifest).argv
      ≡ "--permission-mode" ∷ "manual" ∷ rest)
unfolding resolve_capability_note
permission_example = permission_lem revision notes "now" manifest refl has_compiled

abbrev prepared : (m : Materialization) → Prepared all_ports (claude_ports m) plan (holding plan 0)
prepared m = record {
  revision = revision;
  probed = notes;
  manifest = manifest;
  dir = "/tmp/d";
  contents = m;
  s₁ = holding plan 1;
  s₂ = holding plan 2;
  s₃ = holding plan 3;
  s₄ = holding plan 4;
  looked = refl;
  has_probed = refl;
  has_compiled = has_compiled;
  made_dir = refl;
  materialized = refl;
}

stored_plan : get "plan-1" (holding plan 0).plans ≡ some plan
unfolding get
stored_plan = refl

abbrev refused_plan : LaunchPlan
refused_plan = failed all_ports (claude_ports broken) plan (
    blocked_reason all_ports (claude_ports broken)
      (blocked_of (deliveries_of revision manifest broken)))

failing_skill : failing_ids revision manifest broken ≡ "claude.plugin-dir-delivery" ∷ []
unfolding required_for
failing_skill = refl

abbrev refused_outcome : LaunchOutcome
refused_outcome =
    failed_outcome (some manifest) (some (compile_adapter_plan manifest))
      ("claude.plugin-dir-delivery" ∷ []) content_recovery refused_plan

blocked_example :
    launch_claude_fresh all_ports (claude_ports broken) "plan-1" (holding plan 0)
    ≡ (returned refused_outcome, holding refused_plan 5)
unfolding put
blocked_example =
    blocked_lem all_ports (claude_ports broken) plan (holding plan 0) (holding refused_plan 5)
      (prepared broken) "claude.plugin-dir-delivery" [] refl refl stored_plan failing_skill refl

spawns :
    (claude_ports contents).spawn
      (started_with revision manifest contents "/tmp/d")
      (holding plan 7)
    ≡ (returned (record { exit_code = some ExitCode.zero; signal = none }), holding plan 8)
unfolding join
spawns = refl

abbrev finished : Finished all_ports (claude_ports contents) (prepared contents)
finished = record {
  time = "2026-01-01T00:00:01.000Z";
  path = "/tmp/context.json";
  result = record { exit_code = some ExitCode.zero; signal = none };
  s₅ = holding plan 5;
  s₆ = holding plan 6;
  s₇ = holding plan 7;
  s₈ = holding plan 8;
  timed = refl;
  wrote = refl;
  announced = refl;
  spawned = spawns;
}

abbrev ended_plan : LaunchPlan
ended_plan = record plan {
  phase = LaunchPhase.succeeded;
  observed_outcome = known ObservedOutcome.succeeded;
}

none_failing : failing_ids revision manifest contents ≡ []
none_failing = refl

abbrev ended_outcome : LaunchOutcome
ended_outcome =
    observed_outcome_of ObservedOutcome.succeeded
      (assembly_of all_ports (claude_ports contents) (prepared contents))
      (deliveries_of revision manifest contents) ended_plan

complete_example :
    launch_claude_fresh all_ports (claude_ports contents) "plan-1" (holding plan 0)
    ≡ (returned ended_outcome, holding ended_plan 9)
unfolding put
complete_example =
    complete_lem all_ports (claude_ports contents) plan (holding plan 0) (holding ended_plan 9)
      (prepared contents) finished refl refl stored_plan none_failing refl

launches :
    launch_claude_fresh all_ports (claude_ports contents) "plan-1" (holding plan 0)
    ≡ (returned ended_outcome, holding ended_plan 9)
unfolding put
launches =
    complete_lem all_ports (claude_ports contents) plan (holding plan 0) (holding ended_plan 9)
      (prepared contents) finished refl refl stored_plan none_failing refl

launch_claude-Landed_example :
    (found : LaunchPlan) × (get "plan-1" (holding plan 0).plans ≡ some found)
    × (found.client ≡ ClientId.claude_code)
    × (found.phase ≡ LaunchPhase.applying)
    × Landed all_ports (claude_ports contents) found ended_outcome (holding ended_plan 9)
launch_claude-Landed_example =
    launch_claude-Landed all_ports (claude_ports contents) (λ dir s. refl) "plan-1" ended_outcome
      (holding plan 0) (holding ended_plan 9) launches
