-- ===== src/Claude/Launch/Landing.antt =====
-- claude-launch.ts, launchClaudeFresh: what a launch that returns has come to once its contents are
-- there, and what the failures before that come to.
use agx.Prelude.{
  String, ◌≡◌, refl, sym, ap, subst, ◌∙◌, Option, none, some, List, [], ◌∷◌, arith, ◌⊎◌, inl, inr,
  nat_eq,
}
use agx.Prelude.Dict.{get, get-put_self}
use agx.Prelude.Outcome.{Outcome, returned, thrown}
use agx.Prelude.Exec.{Exec, >>=-eq-returned, pure-returned}
use agx.Prelude.Checked.{Checked, ok, refused}
use agx.Facts.{known}
use agx.Activation.{
  LaunchPhase, LaunchPlan, ObservedOutcome, outcome_phase, apply_failed, observed,
  transition_launch_plan,
}
use agx.Activation.Phases.{SamePlan, transition-SamePlan}
use agx.Activation.History.{SamePlan-trans}
use agx.Plans
use agx.Plans.{same_phase, client_tag}
use agx.Launch.World.{State, Ports, SpawnResult}
use agx.Launch.Running.{attempt_message}
use agx.Queries.{Lookup}
use agx.Claude.Capability.{CapabilityNote}
use agx.Claude.Manifest.{Manifest, compiled, compile_manifest}
use agx.Claude.AdapterPlan.{AdapterPlan, compile_adapter_plan}
use agx.Claude.World.{Materialization, ClaudePorts, ObservationStage, LaunchOutcome}
use agx.Claude.Delivery.{
  BlockedDelivery, Deliveries, deliveries_of, derive_claude_outcome, apply_result, final_argv,
}
use agx.Claude.Delivery.Expecting.{
  started_with, command_line, claude_end, left_out, final_argv_lem, apply_result_lem, derive_lem,
}
use agx.Claude.Launch.{
  Assembly, spawn_claude, params_of, failed_outcome, observed_outcome_of, step_saved, fail_launch,
  observe_launch, after_spawn, launch_delivered,
}

-- What a launch of the plan runs: the revision that was found for the plan, the manifest compiled
-- from it, the directory made for the plan's operation, and the contents put there.
pub record Assembled {W : Type 0} (ports : Ports W) (claude : ClaudePorts W) (plan : LaunchPlan)
    (a : Assembly) : Type 0 where
  pub looked :
      (s : State W) × (s' : State W) × (ports.find_revision plan.revision_id s
        ≡ (returned (Lookup.revision a.revision), s'))
  pub has_compiled :
      (notes : List CapabilityNote) × (now : String) × (compile_manifest a.revision notes now
        ≡ compiled a.manifest)
  pub adapted : a.adapter ≡ compile_adapter_plan a.manifest
  pub made_dir :
      (s : State W) × (s' : State W) × (claude.prepare_dir plan.operation_id s
        ≡ (returned a.dir, s'))

abbrev pub Materialized : {W : Type 0} → ClaudePorts W → Assembly → Materialization → Type 0
Materialized {W} claude a m =
    (s : State W) × (s' : State W) × (claude.materialize a.revision a.dir s ≡ (returned m, s'))

-- A process was started in the directory of such a launch, with the command line that the manifest,
-- the revision and the contents ask for, and was seen to end; the plan has the outcome and the phase
-- that this end stands for.
pub record SeenToEnd {W : Type 0} (ports : Ports W) (claude : ClaudePorts W) (plan : LaunchPlan)
    (o : LaunchOutcome) : Type 0 where
  pub assembly : Assembly
  pub contents : Materialization
  pub result : SpawnResult
  pub before : State W
  pub after : State W
  pub assembled : Assembled ports claude plan assembly
  pub materialized : Materialized claude assembly contents
  pub has_manifest : o.manifest ≡ some assembly.manifest
  pub spawned :
      claude.spawn (started_with assembly.revision assembly.manifest contents assembly.dir) before
      ≡ (returned result, after)
  pub outcome : ObservedOutcome
  pub outcome_of_end :
      outcome ≡ (claude_end result (left_out assembly.revision assembly.manifest contents)).0
  pub has_outcome : o.plan.observed_outcome ≡ known outcome
  pub has_phase : o.plan.phase ≡ outcome_phase outcome

-- The plan did not get to a process and has failed, or its process was seen to end.
abbrev pub Ends : {W : Type 0} → Ports W → ClaudePorts W → LaunchPlan → LaunchOutcome → Type 0
Ends ports claude plan o =
    ((o.stage ≡ ObservationStage.planned) × (o.plan.phase ≡ LaunchPhase.failed))
    ⊎ ((o.stage ≡ ObservationStage.observed) × SeenToEnd ports claude plan o)

-- The outcome is about the plan that was launched, and its plan is the one that is stored.
pub record Landed {W : Type 0} (ports : Ports W) (claude : ClaudePorts W) (plan : LaunchPlan)
    (o : LaunchOutcome) (s' : State W) : Type 0 where
  pub same_plan : SamePlan plan o.plan
  pub is_stored : get o.plan.plan_id s'.plans ≡ some o.plan
  pub ends : Ends ports claude plan o

failed_phase :
    (plan r : LaunchPlan) (reason : String)
    → transition_launch_plan plan (apply_failed reason) ≡ ok r
    → r.phase ≡ LaunchPhase.failed
unfolding transition_launch_plan
failed_phase plan r reason e = ground arith

observed_phase :
    (plan r : LaunchPlan) (o : ObservedOutcome) (reason : Option String)
    → transition_launch_plan plan (observed o reason) ≡ ok r
    → (r.observed_outcome ≡ known o) × (r.phase ≡ outcome_phase o)
unfolding transition_launch_plan
observed_phase plan r o none e = (ground arith, ground arith)
observed_phase plan r o (some reason) e = (ground arith, ground arith)

-- The plan that a call returned is stored.
abbrev Kept : {W : Type 0} → Outcome LaunchPlan × State W → Type 0
Kept (returned r, t) = get r.plan_id t.plans ≡ some r
Kept (thrown x, t) = Unit

pub attempt_message-ok :
    {S A : Type 0} (m : Exec S A) (a : A) (s t : S)
    → attempt_message m s ≡ (returned (ok a), t)
    → m s ≡ (returned a, t)
attempt_message-ok {S} {A} m a s t e = from_result (m s) e
  where
    from_result :
        (x : Outcome A × S)
        → attempt_message (λ (u : S). x) s ≡ (returned (ok a), t)
        → x ≡ (returned a, t)
    from_result (returned b, u) e = cc
    from_result (thrown message, u) e = absurd (cc)

module _ {W : Type 0} (ports : Ports W) (claude : ClaudePorts W) where
  step_saved-stored :
      (c : Checked LaunchPlan) (plan r : LaunchPlan) (event : String) (s s' : State W)
      → step_saved ports claude c plan event s ≡ (returned r, s')
      → (c ≡ ok r) × (get r.plan_id s'.plans ≡ some r)
  unfolding step_saved Plans.save
  step_saved-stored (refused reason) plan r event s s' e = absurd (cc)
  step_saved-stored (ok plan') plan r event s s' e = (
    cc,
    subst (λ (x : Outcome LaunchPlan × State W). Kept x) e
        (get-put_self plan'.plan_id plan' s.plans),
  )

  pub fail_launch-Landed :
      (plan : LaunchPlan) (reason : String) (manifest : Option Manifest)
      (adapter : Option AdapterPlan) (affected : List String) (recovery : String)
      (o : LaunchOutcome) (s s' : State W)
      → fail_launch ports claude plan reason manifest adapter affected recovery s ≡ (returned o, s')
      → Landed ports claude plan o s'
  unfolding fail_launch
  fail_launch-Landed plan reason manifest adapter affected recovery o s s' e =
      let (r, saved, same) =
        pure-returned
          (step_saved ports claude (transition_launch_plan plan (apply_failed reason)) plan
            "apply-failed")
          (failed_outcome manifest adapter affected recovery) e in
      let (accepted, stored) = step_saved-stored _ plan r _ s s' saved in
      subst (λ (x : LaunchOutcome). Landed ports claude plan x s') same
        (record {
          same_plan = transition-SamePlan plan r _ accepted;
          is_stored = stored;
          ends = inl (refl, failed_phase plan r reason accepted);
        })

  -- The process that ended was started for this assembly.
  abbrev Spawned : Assembly → Materialization → SpawnResult → Type 0
  Spawned a m result =
      (before : State W) × (after : State W) × (claude.spawn
          (started_with a.revision a.manifest m a.dir) before
        ≡ (returned result, after))

  observe_launch-Landed :
      (plan : LaunchPlan) (result : SpawnResult) (a : Assembly) (d : Deliveries)
      (m : Materialization) (o : LaunchOutcome) (s s' : State W)
      → Assembled ports claude plan a
      → Materialized claude a m
      → Spawned a m result
      → observe_launch ports claude plan result a d m s ≡ (returned o, s')
      → Landed ports claude plan o s'
  unfolding observe_launch
  observe_launch-Landed plan result a d m o s s' assembled contents (before, after, spawned) e =
      let x = derive_claude_outcome result (apply_result a.revision a.manifest m) in
      let (begun, t, start, rest) =
        >>=-eq-returned (step_saved ports claude _ plan "process-started") _ e in
      let (begins, _) = step_saved-stored _ plan begun _ s t start in
      let (r, saved, same) =
        pure-returned
          (step_saved ports claude (transition_launch_plan begun (observed x.0 x.1)) begun
            "observed")
          (observed_outcome_of x.0 a d) rest in
      let (ended, stored) = step_saved-stored _ begun r _ t s' saved in
      let ends = observed_phase begun r x.0 x.1 ended in
      let stands_for =
        ap (derive_claude_outcome result) (apply_result_lem a.revision a.manifest m)
        ∙ derive_lem result (left_out a.revision a.manifest m) in
      subst (λ (y : LaunchOutcome). Landed ports claude plan y s') same
        (record {
          same_plan =
              SamePlan-trans plan begun r (transition-SamePlan plan begun _ begins)
                (transition-SamePlan begun r _ ended);
          is_stored = stored;
          ends = inr (
            refl,
            record {
              assembly = a;
              contents = m;
              result = result;
              before = before;
              after = after;
              assembled = assembled;
              materialized = contents;
              has_manifest = refl;
              spawned = spawned;
              outcome = x.0;
              outcome_of_end = ap (λ (y : ObservedOutcome × Option String). y.0) stands_for;
              has_outcome = ends.0;
              has_phase = ends.1;
            },
          );
        })

  after_spawn-Landed :
      (c : Checked SpawnResult) (plan : LaunchPlan) (a : Assembly) (d : Deliveries)
      (m : Materialization) (o : LaunchOutcome) (s s' : State W)
      → Assembled ports claude plan a
      → Materialized claude a m
      → ((result : SpawnResult) → c ≡ ok result → Spawned a m result)
      → after_spawn ports claude c plan a d m s ≡ (returned o, s')
      → Landed ports claude plan o s'
  unfolding after_spawn
  after_spawn-Landed (refused message) plan a d m o s s' assembled contents spawned e =
      fail_launch-Landed plan _ _ _ _ _ o s s' e
  after_spawn-Landed (ok result) plan a d m o s s' assembled contents spawned e =
      observe_launch-Landed plan result a d m o s s' assembled contents (spawned result refl) e

  spawn_claude-Spawned :
      (a : Assembly) (m : Materialization) (result : SpawnResult) (s s' : State W)
      → a.adapter ≡ compile_adapter_plan a.manifest
      → attempt_message
          (spawn_claude ports claude (params_of a (deliveries_of a.revision a.manifest m)))
          s
        ≡ (returned (ok result), s')
      → Spawned a m result
  spawn_claude-Spawned a m result s s' adapted e =
      let d = deliveries_of a.revision a.manifest m in
      let (u, t, told, spawned) =
        >>=-eq-returned ports.on_spawning (λ u. claude.spawn (params_of a d)) {s = s}
          (attempt_message-ok (spawn_claude ports claude (params_of a d)) result s s' e) in
      let argv : final_argv a.adapter d ≡ command_line a.revision a.manifest m =
        ap (λ adapter. final_argv adapter d) adapted ∙ final_argv_lem a.revision a.manifest m in
      (
        t,
        s',
        ap (λ argv. claude.spawn (record { argv = argv; config_dir = a.dir; cwd = a.dir }) t)
              (sym argv)
            ∙ spawned,
      )

  pub launch_delivered-Landed :
      (blocks : List BlockedDelivery) (plan : LaunchPlan) (a : Assembly) (m : Materialization)
      (o : LaunchOutcome) (s s' : State W)
      → Assembled ports claude plan a
      → Materialized claude a m
      → launch_delivered ports claude blocks plan a (deliveries_of a.revision a.manifest m) m s
        ≡ (returned o, s')
      → Landed ports claude plan o s'
  unfolding launch_delivered
  launch_delivered-Landed (b ∷ blocks) plan a m o s s' assembled contents e =
      fail_launch-Landed plan _ _ _ _ _ o s s' e
  launch_delivered-Landed [] plan a m o s s' assembled contents e =
      let d = deliveries_of a.revision a.manifest m in
      let (launched_at, t, timed, rest) = >>=-eq-returned ports.now _ e in
      let (path, t₁, wrote, rest₁) = >>=-eq-returned (claude.write_context _) _ rest in
      let (c, t₂, attempted, rest₂) =
        >>=-eq-returned (attempt_message (spawn_claude ports claude (params_of a d)))
          (λ c. after_spawn ports claude c plan a d m) {s = t₁} rest₁ in
      after_spawn-Landed c plan a d m o t₂ s' assembled contents
        (λ result same.
          spawn_claude-Spawned a m result t₁ t₂ assembled.adapted
            (attempted ∙ ap (λ c. (returned c, t₂)) same))
        rest₂
