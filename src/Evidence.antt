-- ===== src/Evidence.antt =====
-- packages/control-plane/src/domain/evidence.ts: observations of the outside world, and what they
-- have to show.
pub mod Validating
pub mod Comparing
pub mod Tallying
pub mod Evaluating
pub mod Tests
use agx.Prelude.{ℕ, String, Bool, true, false, Option, List, [], ◌∷◌, ◌++◌, ◌*◌}
use agx.Time.{minute}
use agx.Deployment.{
  EvidenceProfile, github_delivery, multica_execution, EvidenceSource, github, multica,
}

pub data EvidenceKind : Type 0 where
  control_repository contracts_repository project project_item contract_issue : EvidenceKind
  agent_first_write current_work delivery_pr delivery_result : EvidenceKind
  checks_passed independent_verifier : EvidenceKind
  workspace runtime agent task_completed run_completed : EvidenceKind

pub data ObservationOutcome : Type 0 where
  matched absent ambiguous drifted rejected : ObservationOutcome

pub data ResourceType : Type 0 where
  repository project project_item issue commit pull_request check : ResourceType
  workspace runtime agent task run : ResourceType

-- The numbers are those that are not negative and have no fraction; the source refuses others.
pub record EvidenceRef : Type 0 where
  pub resource_type : ResourceType
  pub identity : Option String
  pub uuid : Option String
  pub number : Option ℕ
  pub revision : Option String

pub record EvidenceObservation : Type 0 where
  pub schema_version : String
  pub evaluator_version : String
  pub source : EvidenceSource
  pub kind : EvidenceKind
  pub installation_id : String
  pub deployment_digest : String
  pub subject_digest : String
  pub ref : EvidenceRef
  pub fingerprint : String
  pub outcome : ObservationOutcome
  pub observed_at : String

pub record EvaluationInput : Type 0 where
  pub schema_version : String
  pub evaluator_version : String
  pub installation_id : String
  pub deployment_digest : String
  pub subject_digest : String
  pub profile : EvidenceProfile
  pub evaluated_at : String
  pub observations : List EvidenceObservation

pub data EvidencePhase : Type 0 where
  blocked_outcome blocked_freshness blocked_preflight : EvidencePhase
  awaiting_verification verified : EvidencePhase

pub data Category : Type 0 where
  preflight outcome freshness : Category

pub record Diagnostic : Type 0 where
  pub code : String
  pub category : Category

pub record RequirementResult : Type 0 where
  pub id : String
  pub code : String

pub record ObservationRef : Type 0 where
  pub source : EvidenceSource
  pub kind : EvidenceKind
  pub fingerprint : String
  pub ref : EvidenceRef
  pub observed_at : String

pub record EvidenceReceipt : Type 0 where
  pub phase : EvidencePhase
  pub profile : EvidenceProfile
  pub installation_id : String
  pub deployment_digest : String
  pub subject_digest : String
  pub evaluated_at : String
  pub satisfied : List RequirementResult
  pub missing : List RequirementResult
  pub diagnostics : List Diagnostic
  pub next_steps : List String
  pub evidence : List ObservationRef

pub record Requirement : Type 0 where
  pub id : String
  pub code : String
  pub next : String
  pub kinds : List EvidenceKind

abbrev required : String → String → String → List EvidenceKind → Requirement
required id code next kinds = record { id = id; code = code; next = next; kinds = kinds }

abbrev pub github_requirements : List Requirement
github_requirements =
    required "github.control-repository" "AGX-EVIDENCE-GITHUB-CONTROL-REPOSITORY-MISSING"
      "read back the control repository" (EvidenceKind.control_repository ∷ [])
    ∷ required "github.contracts-repository" "AGX-EVIDENCE-GITHUB-CONTRACTS-REPOSITORY-MISSING"
        "read back the contracts repository" (EvidenceKind.contracts_repository ∷ [])
    ∷ required "github.project" "AGX-EVIDENCE-GITHUB-PROJECT-MISSING"
        "read back the deployment Project" (EvidenceKind.project ∷ [])
    ∷ required "github.project-item" "AGX-EVIDENCE-GITHUB-PROJECT-ITEM-MISSING"
        "read back the Bootstrap Verification Project item" (EvidenceKind.project_item ∷ [])
    ∷ required "github.contract-issue" "AGX-EVIDENCE-GITHUB-CONTRACT-ISSUE-MISSING"
        "read back the Bootstrap Verification Issue" (EvidenceKind.contract_issue ∷ [])
    ∷ required "github.first-write" "AGX-EVIDENCE-GITHUB-FIRST-WRITE-MISSING"
        "read back the agent first write or current-work pointer"
        (EvidenceKind.agent_first_write ∷ EvidenceKind.current_work ∷ [])
    ∷ required "github.delivery" "AGX-EVIDENCE-GITHUB-DELIVERY-RESULT-MISSING"
        "read back an open delivery PR or delivery result"
        (EvidenceKind.delivery_pr ∷ EvidenceKind.delivery_result ∷ [])
    ∷ required "github.verifier" "AGX-EVIDENCE-GITHUB-VERIFIER-MISSING"
        "read back all required checks or an independent verifier"
        (EvidenceKind.checks_passed ∷ EvidenceKind.independent_verifier ∷ [])
    ∷ []

abbrev pub multica_requirements : List Requirement
multica_requirements =
    required "multica.workspace" "AGX-EVIDENCE-MULTICA-WORKSPACE-MISSING"
      "read back the selected Multica Workspace" (EvidenceKind.workspace ∷ [])
    ∷ required "multica.runtime" "AGX-EVIDENCE-MULTICA-RUNTIME-MISSING"
        "read back the selected Multica Runtime as online" (EvidenceKind.runtime ∷ [])
    ∷ required "multica.agent" "AGX-EVIDENCE-MULTICA-AGENT-MISSING"
        "read back the selected Multica Agent" (EvidenceKind.agent ∷ [])
    ∷ required "multica.execution" "AGX-EVIDENCE-MULTICA-EXECUTION-MISSING"
        "read back a completed Multica Task or Run"
        (EvidenceKind.task_completed ∷ EvidenceKind.run_completed ∷ [])
    ∷ []

abbrev pub requirement_set : EvidenceProfile → List Requirement
requirement_set multica_execution = github_requirements ++ multica_requirements
requirement_set github_delivery = github_requirements

-- The tests for parts of a kind's name, for each kind.
abbrev pub source_for_kind : EvidenceKind → EvidenceSource
source_for_kind EvidenceKind.workspace = multica
source_for_kind EvidenceKind.runtime = multica
source_for_kind EvidenceKind.agent = multica
source_for_kind EvidenceKind.task_completed = multica
source_for_kind EvidenceKind.run_completed = multica
source_for_kind _ = github

abbrev pub resource_for_kind : EvidenceKind → ResourceType
resource_for_kind EvidenceKind.control_repository = ResourceType.repository
resource_for_kind EvidenceKind.contracts_repository = ResourceType.repository
resource_for_kind EvidenceKind.project = ResourceType.project
resource_for_kind EvidenceKind.project_item = ResourceType.project_item
resource_for_kind EvidenceKind.contract_issue = ResourceType.issue
resource_for_kind EvidenceKind.delivery_pr = ResourceType.pull_request
resource_for_kind EvidenceKind.delivery_result = ResourceType.pull_request
resource_for_kind EvidenceKind.checks_passed = ResourceType.check
resource_for_kind EvidenceKind.agent_first_write = ResourceType.commit
resource_for_kind EvidenceKind.current_work = ResourceType.commit
resource_for_kind EvidenceKind.workspace = ResourceType.workspace
resource_for_kind EvidenceKind.runtime = ResourceType.runtime
resource_for_kind EvidenceKind.agent = ResourceType.agent
resource_for_kind EvidenceKind.task_completed = ResourceType.task
resource_for_kind EvidenceKind.independent_verifier = ResourceType.run
resource_for_kind EvidenceKind.run_completed = ResourceType.run

abbrev pub requires_revision : EvidenceKind → Bool
requires_revision EvidenceKind.agent_first_write = true
requires_revision EvidenceKind.current_work = true
requires_revision EvidenceKind.delivery_pr = true
requires_revision EvidenceKind.delivery_result = true
requires_revision EvidenceKind.checks_passed = true
requires_revision _ = false

abbrev is_github : EvidenceSource → Bool
is_github github = true
is_github multica = false

abbrev pub is_relevant : EvidenceProfile → EvidenceKind → Bool
is_relevant multica_execution kind = true
is_relevant github_delivery kind = is_github (source_for_kind kind)

-- MAX_EVIDENCE_OBSERVATIONS, EVIDENCE_MAX_AGE_MS and the versions
abbrev pub max_observations : ℕ
max_observations = 128

abbrev pub max_age : ℕ
max_age = 15 * minute

abbrev pub input_schema : String
input_schema = "agx/evidence-input/v1"

abbrev pub observation_schema : String
observation_schema = "agx/evidence-observation/v1"

abbrev pub evaluator_version : String
evaluator_version = "agx/evidence-evaluator/v1"
