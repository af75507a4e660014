-- ===== src/Status/Diagnostics.antt =====
-- domain/status.ts, projectStatus: what is said of the status, and what is missing.
use agx.Prelude.{
  ℕ, String, Bool, true, false, not, ◌&&◌, ◌||◌, Option, none, some, List, [], ◌∷◌, ◌++◌, map, any,
  leb, nat_eq, string_eq, ◌==◌, if◌then◌else◌,
}
use Prim.Native.Char.{code}
use agx.Prelude.Text.{units, all_in, is_upper, is_digit}
use agx.Facts.{Fact, known, unknown, is_known}
use agx.Config.{StableConfigRevision}
use agx.Activation.{LaunchPlan}
use agx.Deployment.{DeploymentStatus}
use agx.Journal.{Journal, Step, StepKind}
use agx.Evidence.{EvidencePhase, EvidenceReceipt, Diagnostic, RequirementResult}
use agx.Evidence.Validating.{is_hex64}
use agx.Status.{ReadbackOutcome, ReadbackKind, Readback, ProjectionInput, kind_tag, has_outcome}

abbrev is_code_start : ℕ → Bool
is_code_start c = is_upper c || is_digit c

-- CODE, `/^[A-Z0-9][A-Z0-9-]{0,127}$/`
unfoldable pub is_code : String → Bool
is_code String.[] = false
is_code (String.◌∷◌ c s) =
    is_code_start (code c) && leb (units s) 127 && all_in (λ d. is_code_start d || d == b'-') s

unfoldable pub codes : List String → List String
codes [] = []
codes (c ∷ cs) = let rest = codes cs in if is_code c then c ∷ rest else rest

abbrev pub when : Bool → String → List String
when true c = c ∷ []
when false c = []

abbrev pub kind_of : StepKind → ReadbackKind
kind_of StepKind.github_repository = ReadbackKind.repository
kind_of StepKind.github_project = ReadbackKind.project
kind_of _ = ReadbackKind.provider

-- a readback that shows what the step was to bring about
abbrev pub meets : Step → Readback → Bool
meets step r =
    kind_tag r.kind == kind_tag (kind_of step.kind)
    && r.resource_id == step.resource
    && has_outcome ReadbackOutcome.matched r

abbrev pub is_met : List Readback → Step → Bool
is_met resources step = any (meets step) resources

-- readbackMissing
abbrev pub lacks : List Step → List Readback → Bool
lacks steps resources = any (λ step. not (is_met resources step)) steps

abbrev pub revision_of : Fact StableConfigRevision → Option String
revision_of (known r) = some r.revision_id
revision_of (unknown reason at) = none

abbrev names_other : Fact String → String → Bool
names_other (known id) other = not (id == other)
names_other (unknown reason at) other = false

abbrev pub is_stale : DeploymentStatus → Journal → Bool
is_stale d o =
    not (o.deployment_id == d.deployment_id) || names_other d.last_operation_id o.operation_id

abbrev differs : Option String → String → Bool
differs none id = false
differs (some r) id = not (id == r)

abbrev pub is_stale_plan : Journal → Option String → LaunchPlan → Bool
is_stale_plan o revision plan =
    not (plan.operation_id == o.operation_id) || differs revision plan.revision_id

unfoldable pub stale_plans : Journal → Option String → List LaunchPlan → List String
stale_plans o revision [] = []
stale_plans o revision (plan ∷ plans) =
    when (is_stale_plan o revision plan) "STATUS-STALE-REVISION" ++ stale_plans o revision plans

abbrev evidence_tag : EvidencePhase → ℕ
evidence_tag EvidencePhase.blocked_outcome = 0
evidence_tag EvidencePhase.blocked_freshness = 1
evidence_tag EvidencePhase.blocked_preflight = 2
evidence_tag EvidencePhase.awaiting_verification = 3
evidence_tag EvidencePhase.verified = 4

abbrev pub evidence_is : EvidencePhase → EvidenceReceipt → Bool
evidence_is phase e = evidence_tag e.phase == evidence_tag phase

abbrev digests_ok : EvidenceReceipt → Bool
digests_ok e = is_hex64 e.deployment_digest && is_hex64 e.subject_digest

-- The diagnostics, the readbacks' first.
unfoldable pub diagnostics_of : ProjectionInput → List Readback → List String → List String
diagnostics_of input resources invalid =
    invalid
    ++ when (lacks input.operation.steps resources) "STATUS-READBACK-MISSING"
    ++ codes (map (λ (d : Diagnostic). d.code) input.evidence.diagnostics)
    ++ when (not (is_known input.active_revision)) "STATUS-CONFIG-UNKNOWN"
    ++ when (is_stale input.deployment input.operation) "STATUS-STALE-IDENTITY"
    ++ when (not (is_known input.deployment.last_operation_id))
        "STATUS-DEPLOYMENT-OPERATION-UNKNOWN"
    ++ stale_plans input.operation (revision_of input.active_revision) input.launch_plans
    ++ when (evidence_is EvidencePhase.blocked_preflight input.evidence)
        "STATUS-EVIDENCE-PREFLIGHT-BLOCKED"
    ++ when (any (has_outcome ReadbackOutcome.unknown_outcome) resources) "STATUS-READBACK-UNKNOWN"
    ++ when (not (digests_ok input.evidence)) "STATUS-EVIDENCE-DIGEST-INVALID"

unfoldable pub missing_of : ProjectionInput → List Readback → List String
missing_of input resources =
    when (lacks input.operation.steps resources) "STATUS-READBACK-MISSING"
    ++ codes (map (λ (m : RequirementResult). m.code) input.evidence.missing)
