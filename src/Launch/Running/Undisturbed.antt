-- ===== src/Launch/Running/Undisturbed.antt =====
-- launch.ts, launchOmp: a run in which every port answers and no one else writes the plan.
use agx.Prelude.{String, ◌≡◌, refl, ap, ◌∙◌, Option, none, some, true, false, List, arith}
use agx.Prelude.Dict.{get, put, get-put_self, put-put}
use agx.Prelude.Outcome.{returned}
use agx.Prelude.Checked.{ok}
use agx.Facts.{Fact, known}
use agx.Config.{StableConfigRevision}
use agx.Activation.{
  LaunchPhase, LaunchPlan, ObservedOutcome, outcome_phase, process_started, observed,
  transition_launch_plan,
}
use agx.Activation.Projection.{Applied}
use agx.Plans
use agx.Plans.{update_plan, same_phase}
use agx.Queries.{Lookup}
use agx.Launch.{compute_known_differences, save_if_current, save_or_throw}
use agx.Launch.World.{State, Ports, SpawnResult, Probe}
use agx.Launch.Running.Expecting.{
  unrealised, omp_end, derive_lem, apply_result_lem, started_with, params_lem, context_with,
  context_lem,
}
use agx.Launch.Running.{
  step_saved, observe_launch, launch_omp, derive_outcome, is_unknown_level, apply_result_of,
}

abbrev pub begun : LaunchPlan → LaunchPlan
begun plan = record plan { phase = LaunchPhase.observing }

abbrev noted : Option String → Fact String → Fact String
noted none before = before
noted (some reason) before = known reason

-- The plan after its process was observed to end.
abbrev pub over : LaunchPlan → ObservedOutcome × Option String → LaunchPlan
over plan (outcome, reason) = record plan {
  phase = outcome_phase outcome;
  observed_outcome = known outcome;
  failure_reason = noted reason plan.failure_reason;
}

pub begin_transition :
    (plan : LaunchPlan)
    → plan.phase ≡ LaunchPhase.applying
    → transition_launch_plan plan process_started ≡ ok (begun plan)
unfolding transition_launch_plan
begin_transition plan e = ground arith

pub over_transition :
    (plan : LaunchPlan) (o : ObservedOutcome × Option String)
    → transition_launch_plan (begun plan) (observed o.0 o.1) ≡ ok (over plan o)
unfolding transition_launch_plan
over_transition plan (outcome, none) = refl
over_transition plan (outcome, some reason) = refl

module _ {W : Type 0} (ports : Ports W) (extension_path : String) (args : List String)
    (cwd : String) where
  -- The calls of the ports that one run makes, in order, and their answers; after them the plan is
  -- stored as it was before.
  pub record Answers (plan : LaunchPlan) (s : State W) : Type 0 where
    pub revision : StableConfigRevision
    pub probe : Probe
    pub time : String
    pub path : String
    pub result : SpawnResult
    pub s₁ : State W
    pub s₂ : State W
    pub s₃ : State W
    pub s₄ : State W
    pub s₅ : State W
    pub s₆ : State W
    pub looked : ports.find_revision plan.revision_id s ≡ (returned (Lookup.revision revision), s₁)
    pub probed : ports.probe s₁ ≡ (returned probe, s₂)
    pub level_known : is_unknown_level ports probe.level ≡ false
    pub timed : ports.now s₂ ≡ (returned time, s₃)
    pub wrote : ports.write_context (context_with ports plan time revision) s₃ ≡ (returned path, s₄)
    pub announced : ports.on_spawning s₄ ≡ (returned tt, s₅)
    pub spawned :
        ports.spawn (started_with ports revision path probe.level extension_path args cwd) s₅
        ≡ (returned result, s₆)
    pub undisturbed : get plan.plan_id s₆.plans ≡ some plan

  save_applying :
      (expected : LaunchPhase) (plan stored : LaunchPlan) (message : String) (t : State W)
      → ports.guards_writes ≡ true
      → get plan.plan_id t.plans ≡ some stored
      → stored.phase ≡ expected
      → save_or_throw ports plan expected message t
        ≡ (returned plan, record t { plans = put plan.plan_id (update_plan stored plan) t.plans })
  unfolding save_or_throw save_if_current Plans.save_if_phase
  save_applying expected plan stored message t guarded found e =
      let same : same_phase stored.phase expected ≡ true = ground arith in
      rw (guarded, found, same) refl

  observe_lem :
      (plan : LaunchPlan) (result : SpawnResult) (how : Applied) (t : State W)
      → ports.guards_writes ≡ true
      → plan.phase ≡ LaunchPhase.applying
      → get plan.plan_id t.plans ≡ some plan
      → let r = over plan (derive_outcome result how) in
        observe_launch ports plan result how t
        ≡ (returned r, record t { plans = put plan.plan_id r t.plans })
  unfolding observe_launch step_saved
  observe_lem plan result how t guarded e found =
      let o = derive_outcome result how in
      let t' : State W = record t { plans = put plan.plan_id (begun plan) t.plans } in
      rw
        (
          begin_transition plan e,
          save_applying LaunchPhase.applying (begun plan) plan _ t guarded found e,
          over_transition plan o,
          save_applying LaunchPhase.observing (over plan o) (begun plan) _ t' guarded
              (get-put_self plan.plan_id (begun plan) t.plans) refl,
        )
        (ap (λ m. (returned (over plan o), record t { plans = m }))
          (put-put plan.plan_id (over plan o) (begun plan) t.plans))

  pub launch_omp_lem :
      (plan : LaunchPlan) (s : State W) (a : Answers plan s)
      → ports.guards_writes ≡ true
      → plan.phase ≡ LaunchPhase.applying
      → get plan.plan_id s.plans ≡ some plan
      → let r = over plan (omp_end a.result (unrealised a.revision)) in
        launch_omp ports plan.plan_id extension_path args cwd s
        ≡ (returned r, record a.s₆ { plans = put plan.plan_id r a.s₆.plans })
  unfolding launch_omp Plans.find_by_id
  launch_omp_lem plan s a guarded e found =
      let how = apply_result_of (compute_known_differences a.revision) in
      let same : same_phase plan.phase LaunchPhase.applying ≡ true = ground arith in
      let wrote =
        ap (λ c. ports.write_context c a.s₃) (context_lem ports plan a.time a.revision) ∙ a.wrote in
      let spawned =
        ap (λ p. ports.spawn p a.s₅)
          (params_lem ports a.revision a.path a.probe.level extension_path args cwd)
        ∙ a.spawned in
      let ended =
        ap (derive_outcome a.result) (apply_result_lem a.revision)
        ∙ derive_lem a.result (unrealised a.revision) in
      rw (found, same, a.looked, a.probed, a.level_known, a.timed, wrote, a.announced, spawned)
        (observe_lem plan a.result how a.s₆ guarded e a.undisturbed
          ∙ ap
              (λ o. (
                returned (over plan o),
                record a.s₆ { plans = put plan.plan_id (over plan o) a.s₆.plans },
              ))
              ended)
