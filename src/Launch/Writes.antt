-- ===== src/Launch/Writes.antt =====
-- launch.ts, saveIfCurrent: a guarded write changes the stored plan only in the phase expected.
use agx.Prelude.{
  String, ◌≡◌, ◌≢◌, refl, ap, ◌∙◌, some, Bool, true, false, not, if◌then◌else◌, arith, Option-cases,
  Bool-cases, inl, inr,
}
use agx.Prelude.Dict.{get, put, get-put_self}
use agx.Prelude.Outcome.{returned}
use agx.Activation.{LaunchPhase, LaunchPlan}
use agx.Plans
use agx.Plans.{Plans, same_phase, update_plan}
use agx.Prelude.Exec.{Exec, pure, throw, >>=-eq-returned}
use agx.Launch.{save_if_current, save_or_throw}
use agx.Launch.World.{State, Ports}

-- What a guarded write that was carried out found and left.
pub record Written {W : Type 0} (plan : LaunchPlan) (expected : LaunchPhase) (s s' : State W)
    : Type 0 where
  pub stored : LaunchPlan
  pub is_stored : get plan.plan_id s.plans ≡ some stored
  pub in_phase : stored.phase ≡ expected
  pub after : s' ≡ record s { plans = put plan.plan_id (update_plan stored plan) s.plans }

pub same_phase-eq : (a b : LaunchPhase) → same_phase a b ≡ true → a ≡ b
same_phase-eq a b e = ground arith

module _ {W : Type 0} (ports : Ports W) (plan : LaunchPlan) (expected : LaunchPhase) where
  pub save_if_current-Written :
      (s s' : State W)
      → ports.guards_writes ≡ true
      → save_if_current ports plan expected s ≡ (returned true, s')
      → Written plan expected s s'
  unfolding save_if_current Plans.save_if_phase
  save_if_current-Written s s' guarded e = elim (Option-cases (get plan.plan_id s.plans)) [
    | inl missing ↦ absurd (ground arith)
    | inr (stored, found) ↦ elim (Bool-cases (same_phase stored.phase expected)) [
      | inl same ↦ record {
        stored = stored;
        is_stored = found;
        in_phase = same_phase-eq stored.phase expected same;
        after = ground arith;
      }
      | inr differs ↦ absurd (ground arith)
    ]
  ]

  pub Written-stored :
      (s s' : State W)
      → Written plan expected s s'
      → (stored : LaunchPlan) × (get plan.plan_id s'.plans ≡ some stored)
        × (stored.phase ≡ plan.phase)
  Written-stored s s' w = (
    update_plan w.stored plan,
    ap (λ (t : State W). get plan.plan_id t.plans) w.after
        ∙ get-put_self plan.plan_id (update_plan w.stored plan) s.plans,
    refl,
  )

  -- A plan that is stored in another phase is not written.
  pub save_if_current-stale :
      (s : State W) (stored : LaunchPlan)
      → ports.guards_writes ≡ true
      → get plan.plan_id s.plans ≡ some stored
      → stored.phase ≢ expected
      → save_if_current ports plan expected s ≡ (returned false, s)
  unfolding save_if_current Plans.save_if_phase
  save_if_current-stale s stored guarded found other =
      let differs : same_phase stored.phase expected ≡ false =
        ground (arith, same_phase-eq stored.phase expected) in
      rw (guarded, found, differs) refl

  kept :
      (saved : Bool) (message : String) (r : LaunchPlan) (t s' : State W)
      → if◌then◌else◌ {A = Exec (State W) LaunchPlan} (not saved) (throw message) (pure plan) t
        ≡ (returned r, s')
      → (saved ≡ true) × (r ≡ plan) × (t ≡ s')
  kept true message r t s' e = (refl, cc, cc)
  kept false message r t s' e = absurd (cc)

  pub save_or_throw-Written :
      (message : String) (r : LaunchPlan) (s s' : State W)
      → ports.guards_writes ≡ true
      → save_or_throw ports plan expected message s ≡ (returned r, s')
      → (r ≡ plan) × Written plan expected s s'
  unfolding save_or_throw
  save_or_throw-Written message r s s' guarded e =
      let (saved, t, wrote, rest) = >>=-eq-returned (save_if_current ports plan expected) _ e in
      let (was_saved, same, there) = kept saved message r t s' rest in
      (same, save_if_current-Written s s' guarded (wrote ∙ cc))
