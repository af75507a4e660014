-- ===== src/Claude/AdapterPlan.antt =====
-- adapters/clients/claude/adapter-plan.ts: the arguments and files that a manifest asks for.
use agx.Prelude.{
  String, Bool, true, false, string_eq, Option, none, some, List, [], ◌∷◌, ◌++◌, map, keep,
  if◌then◌else◌,
}
use agx.Prelude.Text.{texts, join, code_units}
use agx.Prelude.Dict.{Dict, get}
use agx.Config.Compare.{sort_names}
use agx.Activation.Hash.{hash_units, to_hex}
use agx.Launch.World.{ProbeLevel}
use agx.Claude.Capability.{CapabilityNote}
use agx.Claude.Manifest.{Manifest, non_empty}

pub data LaunchTarget : Type 0 where
  fresh already_running : LaunchTarget

abbrev target_text : LaunchTarget → String
target_text fresh = "fresh"
target_text already_running = "already-running"

abbrev pub determine_launch_target : Bool → LaunchTarget
determine_launch_target true = fresh
determine_launch_target false = already_running

-- CAPABILITY_ARGV_MAP
abbrev pub capability_argv : Dict (List String)
capability_argv =
    ("claude.permission-mode-control", "--permission-mode" ∷ "manual" ∷ [])
    ∷ ("claude.mcp-project-scope-control", "--strict-mcp-config" ∷ [])
    ∷ ("claude.setting-sources-control", "--setting-sources" ∷ "project" ∷ [])
    ∷ []

abbrev pub is_usable : ProbeLevel → Bool
is_usable ProbeLevel.supported = true
is_usable ProbeLevel.degraded = true
is_usable _ = false

-- the arguments of the capability, if it has any and can be used
abbrev pub argv_of : CapabilityNote → Option (List String)
argv_of note = if is_usable note.status then get note.capability_id capability_argv else none

abbrev is_some : Option (List String) → Bool
is_some none = false
is_some (some argv) = true

-- isArgvContributing
abbrev pub is_argv_contributing : CapabilityNote → Bool
is_argv_contributing note = is_some (argv_of note)

abbrev add_argv : Option (List String) → List String → List String
add_argv none rest = rest
add_argv (some argv) rest = argv ++ rest

unfoldable pub build_argv : List CapabilityNote → List String
build_argv [] = []
build_argv (note ∷ policy) = let rest = build_argv policy in add_argv (argv_of note) rest

unfoldable pub argv_contributing_ids : List CapabilityNote → List String
argv_contributing_ids policy =
    map (λ (n : CapabilityNote). n.capability_id) (keep is_argv_contributing policy)

-- ClaudeAdapterPlan; the client is `claude-code` and the expected observation is constant
pub record AdapterPlan : Type 0 where
  pub launch_target : LaunchTarget
  pub manifest_hash : String
  pub argv : List String
  pub env_keys : List String
  pub generated_files : List String
  pub plan_hash : String

-- computeClaudeAdapterPlanHash; the sorted purposes of the files
unfoldable pub compute_adapter_plan_hash :
    String → LaunchTarget → List String → List String → List String → String
compute_adapter_plan_hash manifest_hash target argv env_keys files =
    let input = join "||" (
      manifest_hash
      ∷ "claude-code"
      ∷ target_text target
      ∷ join " " argv
      ∷ join "," (sort_names env_keys)
      ∷ join "," (sort_names files)
      ∷ []) in
    texts ("cadp_" ∷ to_hex (hash_units 0 (code_units input)) ∷ [])

abbrev when : Bool → String → List String
when true purpose = purpose ∷ []
when false purpose = []

unfoldable pub files_of : Manifest → List String
files_of m =
    "launch-context-diagnostic"
    ∷ (when (non_empty m.skills) "claude-plugin-dir"
        ++ when (non_empty m.instructions) "append-system-prompt"
        ++ when (non_empty m.mcp) "mcp-config")

unfoldable pub compile_adapter_plan : Manifest → AdapterPlan
compile_adapter_plan m =
    let argv = build_argv m.capability_policy in
    let env_keys = "CLAUDE_CONFIG_DIR" ∷ [] in
    let files = files_of m in
    record {
      launch_target = fresh;
      manifest_hash = m.manifest_hash;
      argv = argv;
      env_keys = env_keys;
      generated_files = files;
      plan_hash = compute_adapter_plan_hash m.manifest_hash fresh argv env_keys files;
    }
