-- ===== src/Apply/Remote.antt =====
-- packages/control-plane/src/application/ports.ts: GithubRepositoryPort, GithubProjectPort and
-- ProviderActivationPort, the remote side of a deployment, with the targets that they are given.
-- Each call may throw and may change the world. A result keeps what applyDeploymentPlan looks at.
use agx.Prelude.{ℕ, String, Bool}
use agx.Prelude.Dict.{Dict}
use agx.Prelude.Exec.{Exec}

pub data RepositoryProvision : Type 0 where
  created collision inconclusive : RepositoryProvision

pub data RepositoryReadback : Type 0 where
  absent present inconclusive : RepositoryReadback

-- `created` carries the number of the project's identity
pub data ProjectProvision : Type 0 where
  created : ℕ → ProjectProvision
  collision inconclusive : ProjectProvision

-- `present` says whether the project is linked
pub data ProjectReadback : Type 0 where
  present : Bool → ProjectReadback
  absent inconclusive : ProjectReadback

pub data Activation : Type 0 where
  activated collision inconclusive : Activation

pub record ProjectTarget : Type 0 where
  pub owner : String
  pub title : String
  pub is_public : Bool
  pub linked_repository : String
  pub installation_id : String

-- The code passes the targets of repositories (`R`) and providers (`P`) on unread.
pub record Targets (R P : Type 0) : Type 0 where
  pub repositories : Dict R
  pub project : ProjectTarget
  pub providers : Dict P

pub record Ports (W R P : Type 0) : Type 0 where
  pub provision_repository : R → Exec W RepositoryProvision
  pub readback_repository : R → Exec W RepositoryReadback
  pub provision_project : ProjectTarget → Exec W ProjectProvision
  pub readback_project : ProjectTarget → ℕ → Exec W ProjectReadback
  pub activate_provider : P → Exec W Activation
