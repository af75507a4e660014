-- ===== src/Preflight/Judging.antt =====
-- deployment-preflight.ts: the answers that do not block.
use agx.Prelude.{String, ◌≡◌, refl, true, some, [], string_eq, arith, eq_iff}
use agx.Config.{StableConfigRevision}
use agx.Queries.{Lookup}
use agx.Preflight.{ProviderTarget, Host}
use agx.Preflight.Asking.{
  SourceValidation, Readiness, Inventory, InventoryResult, SubjectReadback, same_source,
  source_blockers, revision_blockers, repository_blockers, project_answer_blockers,
  provider_blockers, subject_blockers,
}

-- The provider is the one that was asked for, and if it has the marketplace, that has the source
-- that is wanted.
pub record Fits {D : Type 0} (host : Host) (p : ProviderTarget D) (i : Inventory) : Type 0 where
  pub same_provider : i.provider ≡ p.provider
  pub source :
      i.marketplace_present ≡ true
      → same_source host i.marketplace_source p.marketplace_source ≡ true

pub source_valid :
    (r : String) (v : SourceValidation)
    → source_blockers r (some v) ≡ []
    → v ≡ SourceValidation.valid
source_valid r SourceValidation.valid e = refl
source_valid r (SourceValidation.invalid reason) e = absurd (cc)

pub revision_found :
    (id : String) (found : Lookup)
    → revision_blockers id (some found) ≡ []
    → (r : StableConfigRevision) × (found ≡ Lookup.revision r)
revision_found id (Lookup.revision r) e = (r, refl)
revision_found id Lookup.missing e = absurd (cc)
revision_found id (Lookup.unsupported reason) e = absurd (cc)

pub repository_ready :
    (r : String) (v : Readiness) → repository_blockers r (some v) ≡ [] → v ≡ Readiness.ready
repository_ready r Readiness.ready e = refl
repository_ready r Readiness.collision e = absurd (cc)
repository_ready r (Readiness.inconclusive reason) e = absurd (cc)

pub project_ready :
    (r : String) (v : Readiness) → project_answer_blockers r (some v) ≡ [] → v ≡ Readiness.ready
project_ready r Readiness.ready e = refl
project_ready r Readiness.collision e = absurd (cc)
project_ready r (Readiness.inconclusive reason) e = absurd (cc)

pub subject_observed :
    (id : String) (v : SubjectReadback)
    → subject_blockers id (some v) ≡ []
    → v ≡ SubjectReadback.observed
subject_observed id SubjectReadback.observed e = refl
subject_observed id SubjectReadback.absent e = absurd (cc)
subject_observed id SubjectReadback.ambiguous e = absurd (cc)
subject_observed id SubjectReadback.offline e = absurd (cc)
subject_observed id (SubjectReadback.inconclusive reason) e = absurd (cc)

pub provider-Fits :
    {D : Type 0} (host : Host) (p : ProviderTarget D) (v : InventoryResult)
    → provider_blockers host p.provider p.marketplace_source (some v) ≡ []
    → (i : Inventory) × (v ≡ InventoryResult.observed i) × Fits host p i
provider-Fits host p (InventoryResult.inconclusive reason) e = absurd (cc)
provider-Fits host p (InventoryResult.observed i) e = (
  i,
  refl,
  record { same_provider = (eq_iff _ _).0 (ground arith); source = λ present. ground arith },
)
