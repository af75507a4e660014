-- ===== src/Claude/Launch/Completing.antt =====
-- claude-launch.ts, launchClaudeFresh: launches in which the ports answer, up to the contents and to
-- the end of the process.
use agx.Prelude.{String, ◌≡◌, refl, ap, ◌∙◌, some, true, List, [], ◌∷◌, map, nat_eq, ◌==◌, arith}
use agx.Prelude.Text.{texts, join}
use agx.Prelude.Dict.{get, put, put-put}
use agx.Prelude.Outcome.{returned}
use agx.Prelude.Checked.{ok}
use agx.Client.{ClientId}
use agx.Config.{StableConfigRevision}
use agx.Activation.{LaunchPhase, LaunchPlan, apply_failed, transition_launch_plan}
use agx.Facts.{known}
use agx.Plans
use agx.Plans.{same_phase, client_tag}
use agx.Queries.{Lookup}
use agx.Launch.World.{State, Ports, SpawnResult}
use agx.Launch.Running.Undisturbed.{begun, over, begin_transition, over_transition}
use agx.Claude.Capability.{CapabilityNote}
use agx.Claude.Manifest.{Manifest, compiled, compile_manifest}
use agx.Claude.AdapterPlan.{compile_adapter_plan}
use agx.Claude.World.{Materialization, ClaudePorts, LaunchOutcome}
use agx.Claude.Delivery.{
  BlockedDelivery, Deliveries, deliveries_of, blocked_of, derive_claude_outcome, apply_result,
}
use agx.Claude.Delivery.Expecting.{
  started_with, claude_end, left_out, final_argv_lem, apply_result_lem, derive_lem,
}
use agx.Claude.Delivery.Failing.{failing_ids, ids_of, blocked_of-failing}
use agx.Claude.Launch.{
  Assembly, content_recovery, failed_outcome, observed_outcome_of, context_of, step_saved,
  fail_launch, observe_launch, after_spawn, launch_delivered, launch_materialized, launch_inside,
  launch_in, launch_compiled, launch_detail, launch_found, launch_claude_fresh,
}

module _ {W : Type 0} (ports : Ports W) (claude : ClaudePorts W) where
  -- The calls of a launch up to the contents, in order, and their answers.
  pub record Prepared (plan : LaunchPlan) (s : State W) : Type 0 where
    pub revision : StableConfigRevision
    pub probed : List CapabilityNote
    pub manifest : Manifest
    pub dir : String
    pub contents : Materialization
    pub s₁ : State W
    pub s₂ : State W
    pub s₃ : State W
    pub s₄ : State W
    pub looked : ports.find_revision plan.revision_id s ≡ (returned (Lookup.revision revision), s₁)
    pub has_probed : claude.probe s₁ ≡ (returned probed, s₂)
    pub has_compiled : compile_manifest revision probed (claude.stamp s₂) ≡ compiled manifest
    pub made_dir : claude.prepare_dir plan.operation_id s₂ ≡ (returned dir, s₃)
    pub materialized : claude.materialize revision dir s₃ ≡ (returned contents, s₄)

  abbrev pub assembly_of : {plan : LaunchPlan} {s : State W} → Prepared plan s → Assembly
  assembly_of p = record {
    revision = p.revision;
    manifest = p.manifest;
    adapter = compile_adapter_plan p.manifest;
    dir = p.dir;
  }

  abbrev pub deliveries_in : {plan : LaunchPlan} {s : State W} → Prepared plan s → Deliveries
  deliveries_in p = deliveries_of p.revision p.manifest p.contents

  -- the plan after a failure
  abbrev pub failed : LaunchPlan → String → LaunchPlan
  failed plan reason = record plan { phase = LaunchPhase.failed; failure_reason = known reason }

  abbrev pub blocked_reason : List BlockedDelivery → String
  blocked_reason blocks = texts (
      "content-materialization-blocked: "
      ∷ join "; " (map (λ (b : BlockedDelivery). b.reason) blocks)
      ∷ [])

  failed_transition :
      (plan : LaunchPlan) (reason : String)
      → plan.phase ≡ LaunchPhase.applying
      → transition_launch_plan plan (apply_failed reason) ≡ ok (failed plan reason)
  unfolding transition_launch_plan
  failed_transition plan reason e = ground arith

  -- A launch comes to what it comes to once its contents are there, and its directory is removed.
  launch_lem :
      (plan : LaunchPlan) (s t t' : State W) (p : Prepared plan s) (o : LaunchOutcome)
      → plan.client ≡ ClientId.claude_code
      → plan.phase ≡ LaunchPhase.applying
      → get plan.plan_id s.plans ≡ some plan
      → (let d = deliveries_in p in
          launch_delivered ports claude (blocked_of d) plan (assembly_of p) d p.contents p.s₄)
        ≡ (returned o, t)
      → claude.cleanup_dir p.dir t ≡ (returned tt, t')
      → launch_claude_fresh ports claude plan.plan_id s ≡ (returned o, t')
  unfolding launch_claude_fresh launch_found launch_detail launch_compiled launch_in launch_inside
      launch_materialized Plans.find_by_id
  launch_lem plan s t t' p o own e stored rest cleaned =
      let own_tag : client_tag plan.client == client_tag ClientId.claude_code ≡ true =
        ground arith in
      let same : same_phase plan.phase LaunchPhase.applying ≡ true = ground arith in
      rw
        (
          stored, own_tag, same, p.looked, p.has_probed, p.has_compiled, p.made_dir, p.materialized,
          rest, cleaned,
        )
        refl

  delivered_blocked :
      (blocks : List BlockedDelivery) (plan : LaunchPlan) (a : Assembly) (d : Deliveries)
      (m : Materialization) (t : State W) (id : String) (ids : List String)
      → plan.phase ≡ LaunchPhase.applying
      → ids_of blocks ≡ id ∷ ids
      → let r = failed plan (blocked_reason blocks) in
        launch_delivered ports claude blocks plan a d m t ≡ (
          returned
              (failed_outcome (some a.manifest) (some a.adapter) (id ∷ ids) content_recovery r),
          record t { plans = put plan.plan_id r t.plans },
        )
  unfolding launch_delivered fail_launch step_saved Plans.save
  delivered_blocked [] plan a d m t id ids e named = absurd (cc)
  delivered_blocked (b ∷ blocks) plan a d m t id ids e named =
      rw (failed_transition plan (blocked_reason (b ∷ blocks)) e, named) refl

  -- A launch of a confirmed plan for Claude Code of which some required contents cannot be
  -- materialized returns the plan as failed and names the capabilities of exactly those contents;
  -- the plan is stored, the directory removed, and nothing else is called: no launch context is
  -- written and no process is started.
  pub blocked_lem :
      (plan : LaunchPlan) (s t' : State W) (p : Prepared plan s) (id : String) (ids : List String)
      → plan.client ≡ ClientId.claude_code
      → plan.phase ≡ LaunchPhase.applying
      → get plan.plan_id s.plans ≡ some plan
      → failing_ids p.revision p.manifest p.contents ≡ id ∷ ids
      → let a = assembly_of p in
        let r = failed plan (blocked_reason (blocked_of (deliveries_in p))) in
        claude.cleanup_dir p.dir (record p.s₄ { plans = put plan.plan_id r p.s₄.plans })
          ≡ (returned tt, t')
        → launch_claude_fresh ports claude plan.plan_id s ≡ (
          returned
              (failed_outcome (some a.manifest) (some a.adapter) (id ∷ ids) content_recovery r),
          t',
        )
  blocked_lem plan s t' p id ids own e stored failing cleaned =
      let d = deliveries_in p in
      let named = blocked_of-failing p.revision p.manifest p.contents ∙ failing in
      launch_lem plan s _ t' p _ own e stored
        (delivered_blocked (blocked_of d) plan (assembly_of p) d p.contents p.s₄ id ids e named)
        cleaned

  -- The calls from the contents to the end of the process, in order, and their answers.
  pub record Finished {plan : LaunchPlan} {s : State W} (p : Prepared plan s) : Type 0 where
    pub time : String
    pub path : String
    pub result : SpawnResult
    pub s₅ : State W
    pub s₆ : State W
    pub s₇ : State W
    pub s₈ : State W
    pub timed : ports.now p.s₄ ≡ (returned time, s₅)
    pub wrote :
        claude.write_context (context_of plan time (assembly_of p) p.contents) s₅
        ≡ (returned path, s₆)
    pub announced : ports.on_spawning s₆ ≡ (returned tt, s₇)
    pub spawned :
        claude.spawn (started_with p.revision p.manifest p.contents p.dir) s₇
        ≡ (returned result, s₈)

  observed_lem :
      (plan : LaunchPlan) (result : SpawnResult) (a : Assembly) (d : Deliveries)
      (m : Materialization) (t : State W)
      → plan.phase ≡ LaunchPhase.applying
      → let x = derive_claude_outcome result (apply_result a.revision a.manifest m) in
        let r = over plan x in
        observe_launch ports claude plan result a d m t ≡ (
          returned (observed_outcome_of x.0 a d r),
          record t { plans = put plan.plan_id r t.plans },
        )
  unfolding observe_launch step_saved Plans.save
  observed_lem plan result a d m t e =
      let x = derive_claude_outcome result (apply_result a.revision a.manifest m) in
      rw (begin_transition plan e, over_transition plan x)
        (ap
          (λ plans.
            (returned (observed_outcome_of x.0 a d (over plan x)), record t { plans = plans }))
          (put-put plan.plan_id (over plan x) (begun plan) t.plans))

  delivered_lem :
      (blocks : List BlockedDelivery) (plan : LaunchPlan) (s : State W) (p : Prepared plan s)
      (f : Finished p)
      → plan.phase ≡ LaunchPhase.applying
      → ids_of blocks ≡ []
      → let a = assembly_of p in
        let d = deliveries_in p in
        let x = derive_claude_outcome f.result (apply_result a.revision a.manifest p.contents) in
        let r = over plan x in
        launch_delivered ports claude blocks plan a d p.contents p.s₄ ≡ (
          returned (observed_outcome_of x.0 a d r),
          record f.s₈ { plans = put plan.plan_id r f.s₈.plans },
        )
  unfolding launch_delivered after_spawn
  delivered_lem (b ∷ blocks) plan s p f e named = absurd (cc)
  delivered_lem [] plan s p f e named =
      let spawned =
        ap (λ argv. claude.spawn (record { argv = argv; config_dir = p.dir; cwd = p.dir }) f.s₇)
          (final_argv_lem p.revision p.manifest p.contents)
        ∙ f.spawned in
      rw (f.timed, f.wrote, f.announced, spawned)
        (observed_lem plan f.result (assembly_of p) (deliveries_in p) p.contents f.s₈ e)

  -- A launch of a confirmed plan for Claude Code whose required contents are all there and whose
  -- ports answer runs the process once, in its directory and with the flags of the usable
  -- capabilities and the arguments for the contents, and returns and stores the plan with the
  -- outcome that the process's end stands for: with exit code zero it succeeded, or is degraded if a
  -- part of the revision is left out; with another one it failed; with none it is incomplete. The
  -- directory is removed after the process has ended.
  pub complete_lem :
      (plan : LaunchPlan) (s t' : State W) (p : Prepared plan s) (f : Finished p)
      → plan.client ≡ ClientId.claude_code
      → plan.phase ≡ LaunchPhase.applying
      → get plan.plan_id s.plans ≡ some plan
      → failing_ids p.revision p.manifest p.contents ≡ []
      → let x = claude_end f.result (left_out p.revision p.manifest p.contents) in
        let r = over plan x in
        claude.cleanup_dir p.dir (record f.s₈ { plans = put plan.plan_id r f.s₈.plans })
          ≡ (returned tt, t')
        → launch_claude_fresh ports claude plan.plan_id s
          ≡ (returned (observed_outcome_of x.0 (assembly_of p) (deliveries_in p) r), t')
  complete_lem plan s t' p f own e stored failing cleaned =
      let named = blocked_of-failing p.revision p.manifest p.contents ∙ failing in
      let ended =
        ap (derive_claude_outcome f.result) (apply_result_lem p.revision p.manifest p.contents)
        ∙ derive_lem f.result (left_out p.revision p.manifest p.contents) in
      launch_lem plan s _ t' p _ own e stored
        (delivered_lem (blocked_of (deliveries_in p)) plan s p f e named
          ∙ ap
              (λ x. (
                returned (observed_outcome_of x.0 (assembly_of p) (deliveries_in p) (over plan x)),
                record f.s₈ { plans = put plan.plan_id (over plan x) f.s₈.plans },
              ))
              ended)
        cleaned
