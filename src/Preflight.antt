-- ===== src/Preflight.antt =====
-- packages/control-plane/src/application/deployment-preflight.ts and operation-plan.ts: whether a
-- deployment can be planned, found out by reading only.
pub mod Diagnosing
pub mod Asking
pub mod Planning
pub mod Clearing
pub mod Judging
pub mod Answering
pub mod Tests
use Prim.Native.Char.{Char, code}
use agx.Prelude.{
  ℕ, String, Bool, true, false, not, ◌&&◌, ◌||◌, Option, none, some, List, [], ◌∷◌, ◌++◌, map, any,
  leb, nat_eq, string_eq, ◌==◌, if◌then◌else◌,
}
use agx.Prelude.Text.{is_blank, all_in, texts}
use agx.Journal.{PlanInput, github_repository, github_project, provider_activation}
use agx.Journal.Plan.{is_resource_id}
use agx.Apply.Remote.{ProjectTarget}

-- The fields that are passed on unread are `details`.
pub record RepositoryTarget (D : Type 0) : Type 0 where
  pub owner : String
  pub name : String
  pub source_path : String
  pub details : D

pub record ProviderTarget (D : Type 0) : Type 0 where
  pub provider : String
  pub marketplace_source : String
  pub details : D

pub data SubjectKind : Type 0 where
  workspace runtime agent : SubjectKind

pub record Subject : Type 0 where
  pub kind : SubjectKind
  pub id : String

-- DeploymentPreflightInput; the normalization of values that do not have these types is left out
pub record Input (D : Type 0) : Type 0 where
  pub source_root : String
  pub deployment_id : String
  pub operation_id : String
  pub revision_id : String
  pub repositories : List (RepositoryTarget D)
  pub project : ProjectTarget
  pub providers : List (ProviderTarget D)
  pub subjects : List Subject

pub record Blocker : Type 0 where
  pub resource : String
  pub reason : String
  pub detail : Option String

-- What the runtime decides: `toLowerCase`, `path.isAbsolute`, the letters and numbers of Unicode,
-- and the order of `localeCompare`.
pub record Host : Type 0 where
  pub lower : String → String
  pub is_absolute : String → Bool
  pub is_letter_or_number : ℕ → Bool
  pub before : String → String → Bool

abbrev pub blocker : String → String → Blocker
blocker resource reason = record { resource = resource; reason = reason; detail = none }

abbrev pub detailed : String → String → String → Blocker
detailed resource reason detail = record {
  resource = resource;
  reason = reason;
  detail = some detail;
}

abbrev pub block_if : Bool → String → String → List Blocker
block_if true resource reason = blocker resource reason ∷ []
block_if false resource reason = []

abbrev pub repository_resource : {D : Type 0} → RepositoryTarget D → String
repository_resource t = texts (t.owner ∷ "/" ∷ t.name ∷ [])

abbrev is_control : ℕ → Bool
is_control c = leb c 31 || c == 127

module _ {T : Type 0} (before : String → String → Bool) (key : T → String) where
  unfoldable pub insert_by : T → List T → List T
  insert_by t [] = t ∷ []
  insert_by t (u ∷ ts) =
      let rest = insert_by t ts in if before (key u) (key t) then u ∷ rest else t ∷ u ∷ ts

  -- `[...ts].sort((left, right) => key(left).localeCompare(key(right)))`
  unfoldable pub sort_by : List T → List T
  sort_by [] = []
  sort_by (t ∷ ts) = insert_by t (sort_by ts)

module _ (host : Host) where
  -- the loop over resources of a kind, after the keys that were seen
  unfoldable pub resource_blockers :
      String → String → String → List String → List String → List Blocker
  resource_blockers invalid invalid_reason duplicate_reason seen [] = []
  resource_blockers invalid invalid_reason duplicate_reason seen (r ∷ resources) =
      let rest =
        resource_blockers invalid invalid_reason duplicate_reason (host.lower r ∷ seen) resources in
      if not (is_resource_id r)
      then blocker invalid invalid_reason ∷ rest
      else block_if (any (λ k. k == host.lower r) seen) r duplicate_reason ++ rest

  abbrev title_ok : String → Bool
  title_ok title =
      not (is_blank title)
      && not (all_in (λ c. not (host.is_letter_or_number c)) title)
      && all_in (λ c. not (is_control c)) title

  abbrev pub project_blockers : ProjectTarget → List Blocker
  project_blockers p =
      if not (title_ok p.title)
      then blocker "(invalid project title)" "invalid-project-title" ∷ []
      else block_if (not (is_resource_id p.installation_id)) "(invalid project identity)"
          "invalid-project-resource"

  module _ {D : Type 0} where
    abbrev pub sorted_repositories : List (RepositoryTarget D) → List (RepositoryTarget D)
    sorted_repositories = sort_by host.before repository_resource

    abbrev pub sorted_providers : List (ProviderTarget D) → List (ProviderTarget D)
    sorted_providers = sort_by host.before (λ (p : ProviderTarget D). p.provider)

    unfoldable pub input_blockers : Input D → List Blocker
    input_blockers input =
        block_if (not (host.is_absolute input.source_root)) "(invalid source root)"
          "invalid-source-root"
        ++ block_if (not (is_resource_id input.deployment_id)) "(invalid deployment id)"
            "invalid-deployment-id"
        ++ block_if (not (is_resource_id input.operation_id)) "(invalid operation id)"
            "invalid-operation-id"
        ++ block_if (is_blank input.revision_id) "(missing revision id)"
            "configuration-revision-required"
        ++ resource_blockers "(invalid repository target)" "invalid-repository-resource"
            "duplicate-repository-target" [] (map repository_resource input.repositories)
        ++ project_blockers input.project
        ++ resource_blockers "(invalid provider target)" "invalid-provider-resource"
            "duplicate-provider-target" []
            (map (λ (p : ProviderTarget D). p.provider) input.providers)

    unfoldable pub build_plan_input : Input D → PlanInput
    build_plan_input input = record {
      operation_id = input.operation_id;
      deployment_id = input.deployment_id;
      revision_id = input.revision_id;
      steps =
          map
            (λ (t : RepositoryTarget D). record {
              kind = github_repository;
              resource = repository_resource t;
            })
            (sorted_repositories input.repositories)
          ++ (record { kind = github_project; resource = input.project.installation_id }
              ∷ map
                  (λ (p : ProviderTarget D). record {
                    kind = provider_activation;
                    resource = p.provider;
                  })
                  (sorted_providers input.providers));
    }
