-- ===== src/Config/Chain/Whole.antt =====
-- config.ts, buildSupersedesChain: the two loops end, and walk along the pointers both ways.
use agx.Prelude.{String, ◌≡◌, Option, none, some, Bool, true, false, List, [], ◌∷◌, map, string_eq}
use agx.Prelude.Dict.{Dict, get}
use agx.Prelude.Optional.{◌>>=◌}
use agx.Config.{StableConfigRevision}
use agx.Config.Chain.{SupersedesLink, SupersedesChain, link, index, succession}
use agx.Config.Chain.Walks.{Walk}

abbrev is_some : {A : Type 0} → Option A → Bool
is_some none = false
is_some (some a) = true

module _ (by_id : Dict StableConfigRevision) where
  -- The revision that the one with that id replaces.
  abbrev pub replaced : String → Option String
  replaced id = do r ← get id by_id; r.supersedes_revision_id

  abbrev pub has_entry : String → Bool
  has_entry id = is_some (get id by_id)

  -- The links of a walk, the last first, before those that are there.
  abbrev pub onto : List String → List SupersedesLink → List SupersedesLink
  onto [] links = links
  onto (j ∷ path) links = onto path (link j ∷ links)

Backed : Dict String → Dict StableConfigRevision → Type 0
Backed s m = (i k : String) → get i s ≡ some k → is_some (get k m) ≡ true

-- What a chain says, in terms of the pointers of the revisions.
pub record IsChain (revisions : List StableConfigRevision) (id : String) (c : SupersedesChain)
    : Type 0 where
  pub older : List String
  pub newer : List String
  pub about : c.revision_id ≡ id
  pub predecessors_are : c.predecessors ≡ onto (index revisions []) older []
  pub successors_are : c.successors ≡ map link newer
  pub back :
      Walk
        (replaced (index revisions []))
        (has_entry (index revisions []))
        (id ∷ [])
        id
        older
        c.dangling_predecessor_id
  pub on :
      Walk
        (λ i. get i (succession revisions []))
        (has_entry (index revisions []))
        (id ∷ [])
        id
        newer
        none
  pub no_dangling_successor : c.dangling_successor_id ≡ none

module _ (revisions : List StableConfigRevision) (id : String) where
  abbrev by : Dict StableConfigRevision
  by = index revisions []
