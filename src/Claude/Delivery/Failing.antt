-- ===== src/Claude/Delivery/Failing.antt =====
-- claude-launch.ts, resolveContentGroupDelivery: which contents keep a launch from taking place.
use agx.Prelude.{
  String, ◌≡◌, refl, ap, ap₂, ◌∙◌, Bool, true, false, ◌&&◌, List, [], ◌∷◌, ◌++◌, map, nat_eq,
}
use agx.Config.{StableConfigRevision}
use agx.Claude.Manifest.{Manifest, non_empty}
use agx.Claude.World.{Materialization, MaterializationFailure}
use agx.Claude.Delivery.{
  BlockedDelivery, Deliveries, deliveries_of, blocked_of, resolve_delivery, required_for,
  has_failures, instructions_delivery, skills_delivery, mcp_delivery, prompt_capability,
  plugin_capability, mcp_capability, listed,
}

abbrev id_if : Bool → String → List String
id_if true id = id ∷ []
id_if false id = []

-- The required contents that the configuration has and that could not all be materialized.
abbrev pub failing_ids : StableConfigRevision → Manifest → Materialization → List String
failing_ids r manifest m =
    id_if
      (non_empty r.instructions
        && has_failures m.instructions.failures
        && required_for manifest prompt_capability)
      prompt_capability
    ++ id_if
        (non_empty r.skills
          && has_failures m.skills.failures
          && required_for manifest plugin_capability)
        plugin_capability
    ++ id_if
        (non_empty r.mcp && has_failures m.mcp.failures && required_for manifest mcp_capability)
        mcp_capability

abbrev pub ids_of : List BlockedDelivery → List String
ids_of = map (λ (b : BlockedDelivery). b.capability_id)

delivery_id :
    (full : Bool) (failures : List MaterializationFailure) (argv : List String) (required : Bool)
    (id : String)
    → ids_of (listed (resolve_delivery full failures argv required id).blocked)
      ≡ id_if (full && has_failures failures && required) id
unfolding resolve_delivery
delivery_id false failures argv required id = refl
delivery_id true [] argv required id = refl
delivery_id true (f ∷ failures) argv true id = refl
delivery_id true (f ∷ failures) argv false id = refl

ids_of-append : (xs ys : List BlockedDelivery) → ids_of (xs ++ ys) ≡ ids_of xs ++ ids_of ys
ids_of-append [] ys = refl
ids_of-append (x ∷ xs) ys = ap (λ l. x.capability_id ∷ l) (ids_of-append xs ys)

blocked_of-ids :
    (d : Deliveries) {x y z : List String}
    → ids_of (listed d.instructions.blocked) ≡ x
    → ids_of (listed d.skills.blocked) ≡ y
    → ids_of (listed d.mcp.blocked) ≡ z
    → ids_of (blocked_of d) ≡ x ++ y ++ z
unfolding blocked_of
blocked_of-ids d e f g =
    ids_of-append (listed d.instructions.blocked ++ listed d.skills.blocked) (listed d.mcp.blocked)
    ∙ ap₂ (λ x y. x ++ y)
        (ids_of-append (listed d.instructions.blocked) (listed d.skills.blocked)
          ∙ ap₂ (λ x y. x ++ y) e f)
        g

module _ (r : StableConfigRevision) (manifest : Manifest) (m : Materialization) where
  instructions_id :
      ids_of (listed (instructions_delivery r manifest m).blocked)
      ≡ id_if
          (non_empty r.instructions
            && has_failures m.instructions.failures
            && required_for manifest prompt_capability)
          prompt_capability
  unfolding instructions_delivery
  instructions_id = delivery_id (non_empty r.instructions) m.instructions.failures _ _ _

  skills_id :
      ids_of (listed (skills_delivery r manifest m).blocked)
      ≡ id_if
          (non_empty r.skills
            && has_failures m.skills.failures
            && required_for manifest plugin_capability)
          plugin_capability
  unfolding skills_delivery
  skills_id = delivery_id (non_empty r.skills) m.skills.failures _ _ _

  mcp_id :
      ids_of (listed (mcp_delivery r manifest m).blocked)
      ≡ id_if
          (non_empty r.mcp && has_failures m.mcp.failures && required_for manifest mcp_capability)
          mcp_capability
  unfolding mcp_delivery
  mcp_id = delivery_id (non_empty r.mcp) m.mcp.failures _ _ _

  pub blocked_of-failing :
      ids_of (blocked_of (deliveries_of r manifest m)) ≡ failing_ids r manifest m
  unfolding deliveries_of
  blocked_of-failing = blocked_of-ids (deliveries_of r manifest m) instructions_id skills_id mcp_id
