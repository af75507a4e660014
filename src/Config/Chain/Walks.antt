-- ===== src/Config/Chain/Walks.antt =====
-- config.ts, buildSupersedesChain: a walk along pointers from id to id, as a relation.
use agx.Prelude.{String, ◌≡◌, Option, none, some, Bool, true, false, List, [], ◌∷◌}
use agx.Config.Chain.{seen}

-- The walk from an id along `next`, through ids that are not visited and have an entry: the ids
-- that it passes, and the id without an entry that it stopped at, if it did.
pub data Walk (next : String → Option String) (has_entry : String → Bool)
    : List String → String → List String → Option String → Type 0 where
  ends :
      {visited : List String} {id : String}
      → next id ≡ none
      → Walk next has_entry visited id [] none
  cycles :
      {visited : List String} {id j : String}
      → next id ≡ some j
      → seen j visited ≡ true
      → Walk next has_entry visited id [] none
  dangles :
      {visited : List String} {id j : String}
      → next id ≡ some j
      → seen j visited ≡ false
      → has_entry j ≡ false
      → Walk next has_entry visited id [] (some j)
  goes :
      {visited : List String} {id j : String} {path : List String} {dangling : Option String}
      → next id ≡ some j
      → seen j visited ≡ false
      → has_entry j ≡ true
      → Walk next has_entry (j ∷ visited) j path dangling
      → Walk next has_entry visited id (j ∷ path) dangling
