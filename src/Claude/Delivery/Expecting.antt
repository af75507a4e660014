-- ===== src/Claude/Delivery/Expecting.antt =====
-- claude-launch.ts: the command line of a launch and what its end stands for, written down once more
-- from the manifest, the revision and the contents.
use agx.Prelude.{
  String, ◌≡◌, refl, ap₂, ◌∙◌, Option, some, none, Bool, true, false, ◌&&◌, ◌||◌, List, [], ◌∷◌,
  ◌++◌, string_eq, ◌==◌, if◌then◌else◌, arith,
}
use agx.Prelude.Dict.{get}
use agx.Config.{StableConfigRevision, CapabilityReference}
use agx.Activation.{ObservedOutcome}
use agx.Launch.World.{SpawnResult, ExitCode, ProbeLevel}
use agx.Launch.Endings.{has_any, has_any-append, applied_but, end_of}
use agx.Claude.Capability.{CapabilityNote}
use agx.Claude.Manifest.{Manifest, ManifestStatus, non_empty}
use agx.Claude.AdapterPlan.{build_argv, compile_adapter_plan}
use agx.Claude.World.{MaterializationFailure, MaterializedGroup, Materialization, ClaudeSpawnParams}
use agx.Claude.Delivery.{
  resolve_delivery, deliveries_of, instructions_delivery, skills_delivery, mcp_delivery, final_argv,
  known_differences, apply_result, derive_claude_outcome, outcome_at, note_when, degraded_note,
  apply_result_at, if_content,
}

abbrev flags_for : String → List String
flags_for id =
    if "claude.permission-mode-control" == id
    then "--permission-mode" ∷ "manual" ∷ []
    else if "claude.mcp-project-scope-control" == id
    then "--strict-mcp-config" ∷ []
    else if "claude.setting-sources-control" == id
    then "--setting-sources" ∷ "project" ∷ []
    else []

abbrev flags_at : ProbeLevel → String → List String
flags_at ProbeLevel.supported id = flags_for id
flags_at ProbeLevel.degraded id = flags_for id
flags_at _ id = []

-- The flags of the capabilities that can be used, in the order of the policy.
abbrev pub flags : List CapabilityNote → List String
flags [] = []
flags (n ∷ policy) = flags_at n.status n.capability_id ++ flags policy

-- The arguments for a kind of contents: there are some if the revision has such contents, none of
-- them failed, and the text that stands for them was made.
abbrev pub content_args :
    List CapabilityReference → MaterializedGroup → (String → List String) → List String
content_args refs g args = for_each refs g.failures g.content args
  where
    for_each :
        List CapabilityReference
        → List MaterializationFailure
        → Option String
        → (String → List String)
        → List String
    for_each (r ∷ refs) [] (some content) args = args content
    for_each _ _ _ args = []

-- The whole command line: the flags, then the arguments for instructions, skills and MCP servers.
abbrev pub command_line : StableConfigRevision → Manifest → Materialization → List String
command_line r manifest m =
    flags manifest.capability_policy
    ++ content_args r.instructions m.instructions (λ c. "--append-system-prompt" ∷ c ∷ [])
    ++ content_args r.skills m.skills (λ c. "--plugin-dir" ∷ c ∷ [])
    ++ content_args r.mcp m.mcp (λ c. "--mcp-config" ∷ c ∷ "--strict-mcp-config" ∷ [])

-- What the process is started with: its directory is that of the configuration, too.
abbrev pub started_with :
    StableConfigRevision → Manifest → Materialization → String → ClaudeSpawnParams
started_with r manifest m dir = record {
  argv = command_line r manifest m;
  config_dir = dir;
  cwd = dir;
}

abbrev is_degraded : ManifestStatus → Bool
is_degraded ManifestStatus.ready = false
is_degraded _ = true

-- Whether a part of the revision is left out: contents that failed, hooks, plugins, capabilities
-- that are degraded, or a manifest that is not ready.
abbrev pub left_out : StableConfigRevision → Manifest → Materialization → Bool
left_out r manifest m =
    has_any r.instructions && has_any m.instructions.failures
    || has_any r.skills && has_any m.skills.failures
    || has_any r.mcp && has_any m.mcp.failures
    || has_any r.hooks
    || has_any r.plugins
    || has_any manifest.degraded_capabilities
    || is_degraded manifest.manifest_status

-- What the end of a process of Claude Code stands for.
abbrev pub claude_end : SpawnResult → Bool → ObservedOutcome × Option String
claude_end result left =
    end_of "claude exited with code "
      "claude process ended without a determinable exit code (signal: " result.exit_code
      result.signal left

flags_lem : (policy : List CapabilityNote) → build_argv policy ≡ flags policy
unfolding build_argv get
flags_lem [] = refl
flags_lem (n ∷ policy) = ground (arith, flags_lem policy)

derive_at :
    (result : SpawnResult) (code : Option ExitCode) (signal : Option String) (left : Bool)
    → result.signal ≡ signal
    → outcome_at code result (applied_but left)
      ≡ end_of "claude exited with code "
          "claude process ended without a determinable exit code (signal: " code signal left
unfolding outcome_at
derive_at result (some ExitCode.zero) signal false e = refl
derive_at result (some ExitCode.zero) signal true e = refl
derive_at result (some (ExitCode.other code)) signal left e = refl
derive_at result none (some signal) left e = rw e refl
derive_at result none none left e = rw e refl

pub derive_lem :
    (result : SpawnResult) (left : Bool)
    → derive_claude_outcome result (applied_but left) ≡ claude_end result left
unfolding derive_claude_outcome
derive_lem result left = derive_at result result.exit_code result.signal left refl

-- Whether a list of notes has any.
record HasAny (notes : List String) (b : Bool) : Type 0 where
  same : has_any notes ≡ b

HasAny-append :
    {xs ys : List String} {a b : Bool} → HasAny xs a → HasAny ys b → HasAny (xs ++ ys) (a || b)
HasAny-append {xs} {ys} h k = record {
  same = has_any-append xs ys ∙ ap₂ (λ p q. p || q) h.same k.same;
}

HasAny-note_when : (b : Bool) (note : String) → HasAny (note_when b note) b
HasAny-note_when true note = record { same = refl }
HasAny-note_when false note = record { same = refl }

HasAny-degraded_note : (ids : List String) → HasAny (degraded_note ids) (has_any ids)
HasAny-degraded_note [] = record { same = refl }
HasAny-degraded_note (id ∷ ids) = record { same = refl }

result_at :
    (notes : List String) (status : ManifestStatus) (left : Bool)
    → has_any notes ≡ left
    → apply_result_at notes status ≡ applied_but (left || is_degraded status)
result_at [] ManifestStatus.ready left e = ground arith
result_at [] _ left e = ground arith
result_at (n ∷ notes) status left e = ground arith

pub apply_result_lem :
    (r : StableConfigRevision) (manifest : Manifest) (m : Materialization)
    → apply_result r manifest m ≡ applied_but (left_out r manifest m)
unfolding apply_result known_differences
apply_result_lem r manifest m =
    let instructions =
      HasAny-note_when (has_any r.instructions && has_any m.instructions.failures)
        "instructions-content-not-materialized-in-fresh-launch" in
    let skills =
      HasAny-note_when (has_any r.skills && has_any m.skills.failures)
        "skills-content-not-materialized-in-fresh-launch" in
    let mcp =
      HasAny-note_when (has_any r.mcp && has_any m.mcp.failures)
        "mcp-content-not-materialized-in-fresh-launch" in
    let hooks =
      HasAny-note_when (has_any r.hooks) "hooks-content-not-materialized-in-fresh-launch" in
    let plugins =
      HasAny-note_when (has_any r.plugins) "plugins-content-not-materialized-in-fresh-launch" in
    let contents = HasAny-append (HasAny-append instructions skills) mcp in
    let notes = HasAny-append (HasAny-append contents hooks) plugins in
    result_at (known_differences r manifest m) manifest.manifest_status _
      (HasAny-append notes (HasAny-degraded_note manifest.degraded_capabilities)).same

content_args_lem :
    (refs : List CapabilityReference) (g : MaterializedGroup)
    (failures : List MaterializationFailure) (content : Option String) (args : String → List String)
    (required : Bool) (id : String)
    → g.failures ≡ failures
    → g.content ≡ content
    → (resolve_delivery (non_empty refs) failures (if_content content args) required id).argv
      ≡ content_args refs g args
unfolding resolve_delivery
content_args_lem [] g failures content args required id e f = refl
content_args_lem (r ∷ refs) g [] none args required id e f = rw (e, f) refl
content_args_lem (r ∷ refs) g [] (some c) args required id e f = rw (e, f) refl
content_args_lem (r ∷ refs) g (x ∷ failures) content args true id e f = rw e refl
content_args_lem (r ∷ refs) g (x ∷ failures) content args false id e f = rw e refl

pub final_argv_lem :
    (r : StableConfigRevision) (manifest : Manifest) (m : Materialization)
    → final_argv (compile_adapter_plan manifest) (deliveries_of r manifest m)
      ≡ command_line r manifest m
unfolding final_argv compile_adapter_plan deliveries_of instructions_delivery skills_delivery
    mcp_delivery
final_argv_lem r manifest m =
    ap₂ (λ a b. a ++ b)
      (ap₂ (λ a b. a ++ b)
        (ap₂ (λ a b. a ++ b) (flags_lem manifest.capability_policy)
          (content_args_lem r.instructions m.instructions _ _ _ _ _ refl refl))
        (content_args_lem r.skills m.skills _ _ _ _ _ refl refl))
      (content_args_lem r.mcp m.mcp _ _ _ _ _ refl refl)
