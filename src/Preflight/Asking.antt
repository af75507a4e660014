-- ===== src/Preflight/Asking.antt =====
-- deployment-preflight.ts: the calls of the ports, and what each answer is taken for. A port that
-- throws blocks.
use Prim.Native.Char.{Char, code}
use Prim.Native.String.{String, char_at}
use agx.Prelude.{
  Bool, false, not, ◌&&◌, Option, none, some, List, [], ◌∷◌, ◌++◌, nat_eq, string_eq, ◌==◌,
  if◌then◌else◌,
}
use agx.Prelude.Text.{is_blank, trim}
use agx.Prelude.Outcome.{Outcome, returned, thrown}
use agx.Prelude.Exec.{Exec}
use agx.Apply.Remote.{ProjectTarget}
use agx.Queries.{Lookup}
use agx.Preflight.{
  RepositoryTarget, ProviderTarget, Subject, Input, Blocker, Host, blocker, detailed,
  repository_resource, sorted_repositories, sorted_providers,
}

-- The results keep what the calls look at.
pub data SourceValidation : Type 0 where
  valid : SourceValidation
  invalid : String → SourceValidation

-- Of a repository or of a project.
pub data Readiness : Type 0 where
  ready collision : Readiness
  inconclusive : String → Readiness

pub record Inventory : Type 0 where
  pub provider : String
  pub marketplace_present : Bool
  pub marketplace_source : Option String

pub data InventoryResult : Type 0 where
  observed : Inventory → InventoryResult
  inconclusive : String → InventoryResult

pub data SubjectReadback : Type 0 where
  observed absent ambiguous offline : SubjectReadback
  inconclusive : String → SubjectReadback

-- DeploymentPreflightPorts; they read the outside world `W`
pub record Ports (W D : Type 0) : Type 0 where
  pub validate_source : String → String → Exec W SourceValidation
  pub find_revision : String → Exec W Lookup
  pub repository_preflight : RepositoryTarget D → Exec W Readiness
  pub project_preflight : ProjectTarget → Exec W Readiness
  pub inspect_provider : String → Exec W InventoryResult
  pub readback_subject : Option (Subject → Exec W SubjectReadback)

-- `/\\/g` replaced by `/`
unfoldable pub forward_slashes : String → String
forward_slashes String.[] = String.[]
forward_slashes (String.◌∷◌ c s) =
    String.◌∷◌ (if code c == b'\\' then char_at "/" 0 else c) (forward_slashes s)

cons_unless_slash : Char → String → String
cons_unless_slash c String.[] = if code c == b'/' then String.[] else String.◌∷◌ c String.[]
cons_unless_slash c s = String.◌∷◌ c s

-- `s.replace(/\/+$/, '')`
unfoldable pub drop_slashes : String → String
unfolding cons_unless_slash
drop_slashes String.[] = String.[]
drop_slashes (String.◌∷◌ c s) = cons_unless_slash c (drop_slashes s)

module _ (host : Host) where
  abbrev pub canonical_source : String → String
  canonical_source s = host.lower (drop_slashes (forward_slashes (trim s)))

  unfoldable pub same_source : Option String → String → Bool
  same_source none expected = false
  same_source (some actual) expected =
      not (is_blank actual) && canonical_source actual == canonical_source expected

abbrev pub source_blockers : String → Option SourceValidation → List Blocker
source_blockers r none = blocker r "source-boundary-unverified" ∷ []
source_blockers r (some valid) = []
source_blockers r (some (invalid reason)) = detailed r "source-boundary-unverified" reason ∷ []

-- A ConfigUnsupportedError is thrown.
abbrev pub revision_blockers : String → Option Lookup → List Blocker
revision_blockers id (some (Lookup.revision r)) = []
revision_blockers id (some Lookup.missing) = blocker id "configuration-revision-missing" ∷ []
revision_blockers id _ = blocker id "configuration-revision-inconclusive" ∷ []

abbrev pub repository_blockers : String → Option Readiness → List Blocker
repository_blockers r none = blocker r "repository-inconclusive" ∷ []
repository_blockers r (some ready) = []
repository_blockers r (some collision) = blocker r "repository-collision" ∷ []
repository_blockers r (some (Readiness.inconclusive reason)) =
    detailed r "repository-inconclusive" reason ∷ []

abbrev pub project_answer_blockers : String → Option Readiness → List Blocker
project_answer_blockers title none = blocker title "project-inconclusive" ∷ []
project_answer_blockers title (some ready) = []
project_answer_blockers title (some collision) = blocker title "project-collision" ∷ []
project_answer_blockers title (some (Readiness.inconclusive reason)) =
    detailed title "project-inconclusive" reason ∷ []

abbrev pub provider_blockers : Host → String → String → Option InventoryResult → List Blocker
provider_blockers host provider source none = blocker provider "provider-inconclusive" ∷ []
provider_blockers host provider source (some (InventoryResult.inconclusive reason)) =
    detailed provider "provider-inconclusive" reason ∷ []
provider_blockers host provider source (some (InventoryResult.observed i)) =
    if not (i.provider == provider)
    then detailed provider "provider-inconclusive" "provider identity mismatch" ∷ []
    else if i.marketplace_present && not (same_source host i.marketplace_source source)
    then detailed provider "provider-collision" "marketplace source differs" ∷ []
    else []

abbrev pub subject_blockers : String → Option SubjectReadback → List Blocker
subject_blockers id none = blocker id "multica-inconclusive" ∷ []
subject_blockers id (some SubjectReadback.observed) = []
subject_blockers id (some absent) = blocker id "multica-absent" ∷ []
subject_blockers id (some ambiguous) = blocker id "multica-ambiguous" ∷ []
subject_blockers id (some offline) = blocker id "multica-offline" ∷ []
subject_blockers id (some (SubjectReadback.inconclusive reason)) =
    detailed id "multica-inconclusive" reason ∷ []

-- Something that is asked of the world: what it adds to the blockers. It does not throw.
abbrev pub Check : Type 0 → Type 0
Check W = W → List Blocker × W

module _ {W : Type 0} where
  abbrev pub answered : {A : Type 0} → (Option A → List Blocker) → Outcome A × W → List Blocker × W
  answered judge (returned a, w) = (judge (some a), w)
  answered judge (thrown e, w) = (judge none, w)

  -- `try { …judge… } catch { … }`
  abbrev pub ask : {A : Type 0} → Exec W A → (Option A → List Blocker) → Check W
  ask call judge w = answered judge (call w)

  abbrev pub both : Check W → Check W → Check W
  both m n w = let (bs, t) = m w in let (cs, u) = n t in (bs ++ cs, u)

  unfoldable pub each : {T : Type 0} → (T → Check W) → List T → Check W
  each f [] w = ([], w)
  each f (t ∷ ts) w = both (f t) (each f ts) w

module _ {W D : Type 0} (host : Host) (ports : Ports W D) where
  abbrev pub ask_source : String → RepositoryTarget D → Check W
  ask_source root t =
      ask (ports.validate_source t.source_path root) (source_blockers (repository_resource t))

  abbrev pub ask_repository : RepositoryTarget D → Check W
  ask_repository t =
      ask (ports.repository_preflight t) (repository_blockers (repository_resource t))

  abbrev pub ask_provider : ProviderTarget D → Check W
  ask_provider p =
      ask (ports.inspect_provider p.provider)
        (provider_blockers host p.provider p.marketplace_source)

  abbrev pub ask_subject_of : Option (Subject → Exec W SubjectReadback) → Subject → Check W
  ask_subject_of none s w =
      (detailed s.id "multica-inconclusive" "Multica readback port unavailable" ∷ [], w)
  ask_subject_of (some readback) s w = ask (readback s) (subject_blockers s.id) w

  abbrev pub ask_subject : Subject → Check W
  ask_subject = ask_subject_of ports.readback_subject

  abbrev pub ask_sources : Input D → Check W
  ask_sources input =
      each (ask_source input.source_root) (sorted_repositories host input.repositories)

  abbrev pub ask_revision : Input D → Check W
  ask_revision input =
      ask (ports.find_revision input.revision_id) (revision_blockers input.revision_id)

  abbrev pub ask_project : Input D → Check W
  ask_project input =
      ask (ports.project_preflight input.project) (project_answer_blockers input.project.title)

  -- the calls after those for the sources
  unfoldable pub ask_remote : Input D → Check W
  ask_remote input = both (ask_revision input) (
      both (each ask_repository (sorted_repositories host input.repositories)) (
        both (ask_project input) (
          both (each ask_provider (sorted_providers host input.providers))
            (each ask_subject input.subjects))))
