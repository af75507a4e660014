-- ===== src/Facts.antt =====
-- packages/control-plane/src/domain/facts.ts: what is known, and what is explicitly not.
use agx.Prelude.{String, Bool, true, false, StrictEq, ◌==◌}

pub data Fact {ℓ} (A : Type ℓ) : Type ℓ where
  known : A → Fact A
  unknown : String → String → Fact A

module _ {ℓ} {A : Type ℓ} where
  abbrev pub is_known : Fact A → Bool
  is_known (known a) = true
  is_known (unknown reason at) = false

  abbrev pub is_unknown : Fact A → Bool
  is_unknown (known a) = false
  is_unknown (unknown reason at) = true

  -- `JSON.stringify` tells the values apart that the code compares: texts, Booleans and tags.
  abbrev pub facts_equal : ⦃e : StrictEq A⦄ → Fact A → Fact A → Bool
  facts_equal (known a) (known b) = a == b
  facts_equal _ _ = false
