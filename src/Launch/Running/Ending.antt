-- ===== src/Launch/Running/Ending.antt =====
-- launch.ts, launchOmp: a run that returns has ended its plan, for good and in the store.
use agx.Prelude.{
  String, ◌≡◌, refl, sym, ap, subst, ◌∙◌, Option, none, some, true, not, List, arith, inl, inr,
}
use agx.Prelude.Dict.{get}
use agx.Prelude.Outcome.{returned}
use agx.Prelude.Exec.{>>=-eq-returned, if-returned}
use agx.Prelude.Checked.{Checked, ok, refused}
use agx.Config.{StableConfigRevision}
use agx.Activation.{
  LaunchPhase, LaunchPlan, ObservedOutcome, outcome_phase, is_terminal_phase, apply_failed,
  observed, transition_launch_plan,
}
use agx.Activation.Phases.{SamePlan, transition-SamePlan}
use agx.Activation.History.{SamePlan-trans}
use agx.Activation.Projection.{Applied}
use agx.Plans
use agx.Plans.{same_phase}
use agx.Queries.{Detail, detail, no_detail}
use agx.Launch.{revision_detail}
use agx.Launch.World.{State, Ports, SpawnResult}
use agx.Launch.Writes.{Written, Written-stored, save_or_throw-Written, same_phase-eq}
use agx.Launch.Running.{
  step_saved, fail_launch, observe_launch, after_spawn, launch_revision, launch_detail,
  launch_found, launch_omp, derive_outcome, is_unknown_level,
}

-- The plan has ended, it is the plan that was run, and it is stored in the phase that it ended in.
pub record Ended {W : Type 0} (plan r : LaunchPlan) (s' : State W) : Type 0 where
  pub terminal : is_terminal_phase r.phase ≡ true
  pub same_plan : SamePlan plan r
  pub stored : LaunchPlan
  pub is_stored : get r.plan_id s'.plans ≡ some stored
  pub stored_phase : stored.phase ≡ r.phase

failed_phase :
    (plan r : LaunchPlan) (reason : String)
    → transition_launch_plan plan (apply_failed reason) ≡ ok r
    → r.phase ≡ LaunchPhase.failed
unfolding transition_launch_plan
failed_phase plan r reason e = ground arith

observed_phase :
    (plan r : LaunchPlan) (o : ObservedOutcome) (reason : Option String)
    → transition_launch_plan plan (observed o reason) ≡ ok r
    → r.phase ≡ outcome_phase o
unfolding transition_launch_plan
observed_phase plan r o reason e = ground arith

terminal_outcome : (o : ObservedOutcome) → is_terminal_phase (outcome_phase o) ≡ true
unfolding is_terminal_phase
terminal_outcome o = ground arith

terminal_failed : is_terminal_phase LaunchPhase.failed ≡ true
unfolding is_terminal_phase
terminal_failed = refl

module _ {W : Type 0} (ports : Ports W) (guarded : ports.guards_writes ≡ true) where
  step_saved-Written :
      (c : Checked LaunchPlan) (plan r : LaunchPlan) (expected : LaunchPhase) (event : String)
      (s s' : State W)
      → step_saved ports c plan expected event s ≡ (returned r, s')
      → (c ≡ ok r) × Written r expected s s'
  unfolding step_saved
  step_saved-Written (refused reason) plan r expected event s s' e = absurd (cc)
  step_saved-Written (ok plan') plan r expected event s s' e =
      let (same, written) = save_or_throw-Written ports plan' expected _ r s s' guarded e in
      (ap ok (sym same), subst (λ q. Written q expected s s') (sym same) written)

  Written-Ended :
      (plan r : LaunchPlan) (expected : LaunchPhase) (s s' : State W)
      → is_terminal_phase r.phase ≡ true
      → SamePlan plan r
      → Written r expected s s'
      → Ended plan r s'
  Written-Ended plan r expected s s' t same w =
      let (stored, found, phase) = Written-stored ports r expected s s' w in
      record {
        terminal = t;
        same_plan = same;
        stored = stored;
        is_stored = found;
        stored_phase = phase;
      }

  fail_launch-Ended :
      (plan r : LaunchPlan) (reason : String) (s s' : State W)
      → fail_launch ports plan reason s ≡ (returned r, s')
      → Ended plan r s'
  unfolding fail_launch
  fail_launch-Ended plan r reason s s' e =
      let (accepted, written) = step_saved-Written _ plan r _ _ s s' e in
      Written-Ended plan r _ s s'
        (ap is_terminal_phase (failed_phase plan r reason accepted) ∙ terminal_failed)
        (transition-SamePlan plan r _ accepted) written

  observe_launch-Ended :
      (plan r : LaunchPlan) (result : SpawnResult) (how : Applied) (s s' : State W)
      → observe_launch ports plan result how s ≡ (returned r, s')
      → Ended plan r s'
  unfolding observe_launch
  observe_launch-Ended plan r result how s s' e =
      let (begun, t, start, rest) =
        >>=-eq-returned (step_saved ports _ plan LaunchPhase.applying "process-started") _ e in
      let (begins, w) = step_saved-Written _ plan begun _ _ s t start in
      let (ends, written) = step_saved-Written _ begun r _ _ t s' rest in
      let o = derive_outcome result how in
      Written-Ended plan r _ t s'
        (ap is_terminal_phase (observed_phase begun r o.0 o.1 ends) ∙ terminal_outcome o.0)
        (SamePlan-trans plan begun r (transition-SamePlan plan begun _ begins)
          (transition-SamePlan begun r _ ends))
        written

  after_spawn-Ended :
      (c : Checked SpawnResult) (plan r : LaunchPlan) (how : Applied) (s s' : State W)
      → after_spawn ports c plan how s ≡ (returned r, s')
      → Ended plan r s'
  unfolding after_spawn
  after_spawn-Ended (refused message) plan r how s s' e = fail_launch-Ended plan r _ s s' e
  after_spawn-Ended (ok result) plan r how s s' e = observe_launch-Ended plan r result how s s' e

  launch_revision-Ended :
      (plan r : LaunchPlan) (revision : StableConfigRevision) (extension_path : String)
      (args : List String) (cwd : String) (s s' : State W)
      → launch_revision ports plan revision extension_path args cwd s ≡ (returned r, s')
      → Ended plan r s'
  unfolding launch_revision
  launch_revision-Ended plan r revision extension_path args cwd s s' e =
      let (probe, t, probed, rest) = >>=-eq-returned ports.probe _ e in
      elim (if-returned (is_unknown_level ports probe.level) _ _ rest) [
        | inl (is_unknown, failing) ↦ fail_launch-Ended plan r _ t s' failing
        | inr (is_clear, going) ↦
            let (launched_at, t₁, ticked, rest₁) = >>=-eq-returned ports.now _ going in
            let (path, t₂, wrote, rest₂) = >>=-eq-returned (ports.write_context _) _ rest₁ in
            after_spawn-Ended _ plan r _ _ s' rest₂
      ]

  launch_detail-Ended :
      (d : Detail) (plan r : LaunchPlan) (extension_path : String) (args : List String)
      (cwd : String) (s s' : State W)
      → launch_detail ports d plan extension_path args cwd s ≡ (returned r, s')
      → Ended plan r s'
  unfolding launch_detail
  launch_detail-Ended (no_detail message) plan r extension_path args cwd s s' e =
      fail_launch-Ended plan r _ s s' e
  launch_detail-Ended (detail revision) plan r extension_path args cwd s s' e =
      launch_revision-Ended plan r revision extension_path args cwd s s' e

  launch_found-Ended :
      (found : Option LaunchPlan) (id extension_path : String) (args : List String) (cwd : String)
      (s s' : State W) (r : LaunchPlan)
      → launch_found ports found id extension_path args cwd s ≡ (returned r, s')
      → (plan : LaunchPlan) × (found ≡ some plan)
        × (plan.phase ≡ LaunchPhase.applying)
        × Ended plan r s'
  unfolding launch_found
  launch_found-Ended none id extension_path args cwd s s' r e = absurd (cc)
  launch_found-Ended (some plan) id extension_path args cwd s s' r e =
      elim (if-returned (not (same_phase plan.phase LaunchPhase.applying)) _ _ e) [
        | inl (other, thrown_out) ↦ absurd (cc)
        | inr (is_applying, going) ↦
            let (d, t, detailed, rest) =
              >>=-eq-returned (revision_detail ports plan.revision_id) _ going in
            (
              plan,
              refl,
              same_phase-eq plan.phase LaunchPhase.applying (ground arith),
              launch_detail-Ended d plan r extension_path args cwd t s' rest,
            )
      ]

  -- With writes guarded by the phase, a call of `launchOmp` that returns was given a stored plan
  -- that had been confirmed and not yet run (in the phase applying), and returns that plan in a
  -- terminal phase, which is also the phase it is stored in; whatever the calls of the ports did to
  -- the stored plans in between.
  pub launch_omp-Ended :
      (id extension_path : String) (args : List String) (cwd : String) (s s' : State W)
      (r : LaunchPlan)
      → launch_omp ports id extension_path args cwd s ≡ (returned r, s')
      → (plan : LaunchPlan) × (get id s.plans ≡ some plan)
        × (plan.phase ≡ LaunchPhase.applying)
        × Ended plan r s'
  unfolding launch_omp Plans.find_by_id
  launch_omp-Ended id extension_path args cwd s s' r e =
      launch_found-Ended (get id s.plans) id extension_path args cwd s s' r e
