-- ===== src/Config/Chain/Fuel.antt =====
-- config.ts, buildSupersedesChain: each round visits an entry that was not visited.
use agx.Prelude.{
  ℕ, suc, ◌+◌, ◌<◌, ◌≤◌, String, ◌≡◌, some, false, List, [], ◌∷◌, string_eq, if◌then◌else◌, length,
  arith, eq_iff,
}
use agx.Prelude.Dict.{Dict, get, put}
use agx.Config.{StableConfigRevision}
use agx.Config.Chain.{seen, index}

module _ {V : Type 0} where
  -- The number of entries that are not visited.
  abbrev pub unseen : List String → Dict V → ℕ
  unseen visited [] = 0
  unseen visited ((k, v) ∷ m) = (if seen k visited then 0 else 1) + unseen visited m

  unseen-le :
      (j : String) (visited : List String) (m : Dict V) → unseen (j ∷ visited) m ≤ unseen visited m
  unseen-le j visited [] = omega arith
  unseen-le j visited ((k, v) ∷ m) = ground (arith, unseen-le j visited m)

  pub unseen-visit :
      (j : String) (visited : List String) (m : Dict V) (v : V)
      → get j m ≡ some v
      → seen j visited ≡ false
      → unseen (j ∷ visited) m < unseen visited m
  unfolding get
  unseen-visit j visited [] v e n = absurd (cc)
  unseen-visit j visited ((k, w) ∷ m) v e n =
      ground (arith, eq_iff j k, eq_iff k j, unseen-visit j visited m v, unseen-le j visited m)

  pub unseen-length : (visited : List String) (m : Dict V) → unseen visited m ≤ length m
  unseen-length visited [] = omega arith
  unseen-length visited ((k, v) ∷ m) = ground (arith, unseen-length visited m)

  pub length-put : (k : String) (v : V) (m : Dict V) → length (put k v m) ≤ suc (length m)
  unfolding put
  length-put k v [] = omega arith
  length-put k v ((j, w) ∷ m) = ground (arith, length-put k v m)

pub length-index :
    (rs : List StableConfigRevision) (m : Dict StableConfigRevision)
    → length (index rs m) ≤ length rs + length m
unfolding index
length-index [] m = omega arith
length-index (r ∷ rs) m =
    omega (arith, length-index rs (put r.revision_id r m), length-put r.revision_id r m)
