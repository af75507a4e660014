-- ===== src/Config/Chain.antt =====
-- config.ts, buildSupersedesChain: the revisions that one revision replaces, and those that replace it.
pub mod Walks
pub mod Fuel
pub mod Whole
use agx.Prelude.{
  ℕ, zero, suc, String, Option, none, some, Bool, true, false, not, List, [], ◌∷◌, ◌++◌, StrictEq,
  string_eq, ◌==◌, any, length,
}
use agx.Prelude.Dict.{Dict, get, put}
use agx.Prelude.Optional.{◌>>=◌}
use agx.Config.{StableConfigRevision}

pub record SupersedesLink : Type 0 where
  pub revision_id : String

pub record SupersedesChain : Type 0 where
  pub revision_id : String
  pub predecessors : List SupersedesLink
  pub successors : List SupersedesLink
  pub dangling_predecessor_id : Option String
  pub dangling_successor_id : Option String

abbrev pub link : String → SupersedesLink
link id = record { revision_id = id }

-- `byId`, built on what is there
unfoldable pub index :
    List StableConfigRevision → Dict StableConfigRevision → Dict StableConfigRevision
index [] m = m
index (r ∷ rs) m = index rs (put r.revision_id r m)

abbrev succeed_at : Option String → String → Dict String → Dict String
succeed_at none id m = m
succeed_at (some old) id m = put old id m

-- `successorOf`, built on what is there
unfoldable pub succession : List StableConfigRevision → Dict String → Dict String
succession [] m = m
succession (r ∷ rs) m = succession rs (succeed_at r.supersedes_revision_id r.revision_id m)

abbrev pub seen : String → List String → Bool
seen id visited = any (λ v. v == id) visited

-- The loop over the predecessors. Running out of fuel is `none`.
unfoldable pub walk_back :
    ℕ
    → Dict StableConfigRevision
    → List String
    → StableConfigRevision
    → List SupersedesLink
    → Option (List SupersedesLink × Option String)
walk_back zero by_id visited current links = none
walk_back (suc fuel) by_id visited current links = elim current.supersedes_revision_id [
  | none ↦ some (links, none)
  | some next_id ↦ elim (seen next_id visited) [
    | true ↦ some (links, none)
    | false ↦ elim (get next_id by_id) [
      | none ↦ some (links, some next_id)
      | some next ↦ walk_back fuel by_id (next_id ∷ visited) next (link next_id ∷ links)
    ]
  ]
]

-- The loop over the successors.
unfoldable pub walk_on :
    ℕ
    → Dict StableConfigRevision
    → Dict String
    → List String
    → String
    → List SupersedesLink
    → Option (List SupersedesLink × Option String)
walk_on zero by_id successor_of visited id links = none
walk_on (suc fuel) by_id successor_of visited id links = elim (get id successor_of) [
  | none ↦ some (links, none)
  | some next_id ↦ elim (seen next_id visited) [
    | true ↦ some (links, none)
    | false ↦ elim (get next_id by_id) [
      | none ↦ some (links, some next_id)
      | some next ↦
          walk_on fuel by_id successor_of (next_id ∷ visited) next_id (links ++ link next_id ∷ [])
    ]
  ]
]

walk_back_from :
    ℕ
    → Dict StableConfigRevision
    → String
    → Option StableConfigRevision
    → Option (List SupersedesLink × Option String)
walk_back_from fuel by_id id none = some ([], none)
walk_back_from fuel by_id id (some current) = walk_back fuel by_id (id ∷ []) current []

-- One unit of fuel for each revision and one more is enough for either loop.
unfoldable pub build_supersedes_chain : List StableConfigRevision → String → Option SupersedesChain
unfolding walk_back_from
build_supersedes_chain revisions id = do
  let by_id = index revisions []
  let successor_of = succession revisions []
  let fuel = suc (length revisions)
  back ← walk_back_from fuel by_id id (get id by_id)
  on ← walk_on fuel by_id successor_of (id ∷ []) id []
  some (record {
    revision_id = id;
    predecessors = back.0;
    successors = on.0;
    dangling_predecessor_id = back.1;
    dangling_successor_id = on.1;
  })
