-- ===== src/Queries.antt =====
-- packages/control-plane/src/application/queries.ts: reading configuration revisions.
pub mod Comparing
use agx.Prelude.{
  String, Option, none, some, Bool, true, false, List, [], ◌∷◌, ◌++◌, any, StrictEq, string_eq,
  ◌==◌, if◌then◌else◌,
}
use agx.Prelude.Text.{texts}
use agx.Prelude.Optional.{or_else}
use agx.Prelude.Outcome.{Outcome, returned, thrown}
use agx.Prelude.Exec.{Exec, pure, throw, ◌>>=◌}
use agx.Config.{StableConfigRevision}
use agx.Config.Chain.{SupersedesChain, build_supersedes_chain}
use agx.Config.Compare.{ComparisonResult, compare_revisions}

-- What `ConfigRevisionRepository.findById` gives: the revision, `null`, or a
-- ConfigUnsupportedError with its reason. It throws any other error.
pub data Lookup : Type 0 where
  revision : StableConfigRevision → Lookup
  missing : Lookup
  unsupported : String → Lookup

pub record Repository (S : Type 0) : Type 0 where
  pub list_all : Exec S (List StableConfigRevision)
  pub find_by_id : String → Exec S Lookup

-- The revision, or the message of a ConfigNotFoundError or a ConfigUnsupportedError.
pub data Detail : Type 0 where
  detail : StableConfigRevision → Detail
  no_detail : String → Detail

abbrev pub detail_of : String → Lookup → Detail
detail_of id (Lookup.revision r) = detail r
detail_of id Lookup.missing = no_detail (texts ("configuration revision not found: " ∷ id ∷ []))
detail_of id (Lookup.unsupported reason) =
    no_detail (texts ("configuration revision unsupported: " ∷ id ∷ " (" ∷ reason ∷ ")" ∷ []))

-- A query that does not find its revision throws an error that callers tell apart: it is a value.
abbrev pub get_config_revision_detail :
    {S : Type 0} → (String → Exec S Lookup) → String → Exec S Detail
get_config_revision_detail find_by_id id = do found ← find_by_id id; pure (detail_of id found)

pub record CompareFailure : Type 0 where
  pub revision_id : String
  pub error : String

pub record CompareConfigRevisionsResult : Type 0 where
  pub resolved : List StableConfigRevision
  pub failed : List CompareFailure
  pub comparison : Option ComparisonResult

-- `[...new Set(ids)]`, after those that are there
unfoldable pub unique_ids : List String → List String → List String
unique_ids there [] = there
unique_ids there (id ∷ ids) =
    if any (λ t. t == id) there then unique_ids there ids else unique_ids (there ++ id ∷ []) ids

abbrev pub compared : List StableConfigRevision → Option ComparisonResult
compared [] = none
compared (r ∷ revisions) = some (compare_revisions (r ∷ revisions))

sort_detail :
    Detail
    → String
    → List StableConfigRevision × List CompareFailure
    → List StableConfigRevision × List CompareFailure
sort_detail (detail r) id (resolved, failed) = (resolved ++ r ∷ [], failed)
sort_detail (no_detail message) id (resolved, failed) =
    (resolved, failed ++ record { revision_id = id; error = message } ∷ [])

module _ {S : Type 0} (repository : Repository S) where
  unfoldable pub list_config_revisions : Exec S (List StableConfigRevision)
  list_config_revisions = repository.list_all

  chain_of : Lookup → String → Exec S (Option SupersedesChain)
  chain_of (Lookup.revision r) id = do
    revisions ← repository.list_all
    pure (build_supersedes_chain revisions id)
  chain_of Lookup.missing id = throw (texts ("configuration revision not found: " ∷ id ∷ []))
  chain_of (Lookup.unsupported reason) id =
      throw (texts ("configuration revision unsupported: " ∷ id ∷ " (" ∷ reason ∷ ")" ∷ []))

  -- An answer of `none` would be a chain that did not end; there is no such chain.
  unfoldable pub get_supersedes_chain : String → Exec S (Option SupersedesChain)
  unfolding chain_of
  get_supersedes_chain id = do found ← repository.find_by_id id; chain_of found id

  -- the loop over the unique ids
  unfoldable pub resolve_ids :
      List String
      → List StableConfigRevision × List CompareFailure
      → Exec S (List StableConfigRevision × List CompareFailure)
  unfolding sort_detail
  resolve_ids [] sorted = pure sorted
  resolve_ids (id ∷ ids) sorted = do
    found ← get_config_revision_detail repository.find_by_id id
    resolve_ids ids (sort_detail found id sorted)

  unfoldable pub compare_config_revisions : List String → Exec S CompareConfigRevisionsResult
  compare_config_revisions ids = do
    sorted ← resolve_ids (unique_ids [] ids) ([], [])
    pure (record { resolved = sorted.0; failed = sorted.1; comparison = compared sorted.0 })
