-- ===== src/Launch/Preparing.antt =====
-- launch.ts, prepareLaunchPlan and requestConfigSwitch: what they store, and in which order.
use agx.Prelude.{String, ◌≡◌, refl, some, true, false, arith, ◌⊎◌, ◌↔◌}
use agx.Prelude.Dict.{get}
use agx.Prelude.Outcome.{returned, thrown}
use agx.Prelude.Checked.{ok}
use agx.Client.{ClientId, resolve_client_support}
use agx.Activation.{
  LaunchPhase, LaunchPlan, with_failure, create_launch_plan, transition_launch_plan,
  switch_requested,
}
use agx.Plans
use agx.Queries.{Detail, detail, no_detail, detail_of, Lookup}
use agx.Launch.{event_of, new_plan, unsupported_client, prepare_launch_plan, request_config_switch}
use agx.Launch.World.{State, Ports}

-- A prepared plan waits for its confirmation, or has failed if there is no revision for it.
abbrev pub prepared_plan : Detail → LaunchPlan → LaunchPlan
prepared_plan (detail r) plan = record plan { phase = LaunchPhase.awaiting_confirmation }
prepared_plan (no_detail reason) plan = with_failure plan LaunchPhase.failed reason

prepare_transition :
    (d : Detail) (plan : LaunchPlan)
    → plan.phase ≡ LaunchPhase.prepared
    → transition_launch_plan plan (event_of d) ≡ ok (prepared_plan d plan)
unfolding transition_launch_plan
prepare_transition (detail r) plan e = ground arith
prepare_transition (no_detail reason) plan e = ground arith

new_plan-phase :
    {W : Type 0} (ports : Ports W) (revision_id : String) (client : ClientId) (t : String)
    (d : Detail) (u v : String)
    → (new_plan ports revision_id client t d u v).phase ≡ LaunchPhase.prepared
unfolding create_launch_plan
new_plan-phase ports revision_id client t d u v = refl

-- The calls of the ports that one preparation makes, in order, and their answers.
pub record Answers {W : Type 0} (ports : Ports W) (revision_id : String) (s : State W)
    : Type 0 where
  pub time : String
  pub plan_uuid : String
  pub op_uuid : String
  pub lookup : Lookup
  pub s₁ : State W
  pub s₂ : State W
  pub s₃ : State W
  pub s₄ : State W
  pub timed : ports.now s ≡ (returned time, s₁)
  pub looked : ports.find_revision revision_id s₁ ≡ (returned lookup, s₂)
  pub plan_named : ports.random_id s₂ ≡ (returned plan_uuid, s₃)
  pub op_named : ports.random_id s₃ ≡ (returned op_uuid, s₄)

unsupported_iff :
    (c : ClientId) → ((resolve_client_support c).supported ≡ false) ↔ (c ≡ ClientId.codex_cli)
unfolding resolve_client_support
unsupported_iff ClientId.omp = ((λ e. absurd (cc)), (λ e. absurd (cc)))
unsupported_iff ClientId.claude_code = ((λ e. absurd (cc)), (λ e. absurd (cc)))
unsupported_iff ClientId.codex_cli = ((λ e. refl), (λ e. refl))

module _ {W : Type 0} (ports : Ports W) (revision_id : String) (client : ClientId) where
  -- The plan that the answers lead to.
  abbrev pub answered : (s : State W) → Answers ports revision_id s → LaunchPlan
  answered s a =
      let d = detail_of revision_id a.lookup in
      prepared_plan d (new_plan ports revision_id client a.time d a.plan_uuid a.op_uuid)

  -- For a client that is not supported, which is the Codex CLI alone, preparing throws before any
  -- call and any write. For another one it returns, when the ports answer, a plan that awaits its
  -- confirmation or, if the revision is missing or unsupported, has failed with that reason; the plan
  -- is stored as it is returned.
  pub prepare_lem :
      (s : State W)
      → ((resolve_client_support client).supported ≡ false
          → prepare_launch_plan ports revision_id client s
            ≡ (thrown (unsupported_client client (resolve_client_support client).reason), s))
        × ((a : Answers ports revision_id s)
            → (resolve_client_support client).supported ≡ true
            → prepare_launch_plan ports revision_id client s ≡ (
              returned (answered s a),
              record a.s₄ { plans = Plans.save (answered s a) a.s₄.plans },
            ))
        × (((resolve_client_support client).supported ≡ false) ↔ (client ≡ ClientId.codex_cli))
  unfolding prepare_launch_plan
  prepare_lem s = (
    (λ e. rw e refl),
    (λ a e.
        let d = detail_of revision_id a.lookup in
        let plan = new_plan ports revision_id client a.time d a.plan_uuid a.op_uuid in
        rw
          (
            e,
            a.timed,
            a.looked,
            a.plan_named,
            a.op_named,
            prepare_transition d plan
                (new_plan-phase ports revision_id client a.time d a.plan_uuid a.op_uuid),
          )
          refl),
    unsupported_iff client,
  )

abbrev pub switched_plan : LaunchPlan → LaunchPlan
switched_plan plan =
    with_failure plan LaunchPhase.requires_restart "switch-requested-new-configuration-selected"

switch_transition :
    (plan : LaunchPlan)
    → (plan.phase ≡ LaunchPhase.succeeded) ⊎ (plan.phase ≡ LaunchPhase.degraded)
    → transition_launch_plan plan switch_requested ≡ ok (switched_plan plan)
unfolding transition_launch_plan
switch_transition plan e = ground arith

module _ {W : Type 0} (ports : Ports W) where
  -- Switching away from a plan that has succeeded or degraded stores it as requiring a restart
  -- first. If the new client is not supported the call then throws, with no new plan, and the old
  -- one stays as it was stored; if it is, and the ports answer, the new plan is prepared.
  pub switch_lem :
      (id revision_id : String) (client : ClientId) (plan : LaunchPlan) (s : State W)
      → get id s.plans ≡ some plan
      → (plan.phase ≡ LaunchPhase.succeeded) ⊎ (plan.phase ≡ LaunchPhase.degraded)
      → let s₀ : State W = record s { plans = Plans.save (switched_plan plan) s.plans } in
        ((resolve_client_support client).supported ≡ false
          → request_config_switch ports id revision_id client s
            ≡ (thrown (unsupported_client client (resolve_client_support client).reason), s₀))
        × ((a : Answers ports revision_id s₀)
            → (resolve_client_support client).supported ≡ true
            → request_config_switch ports id revision_id client s ≡ (
              returned (switched_plan plan, answered ports revision_id client s₀ a),
              record a.s₄ {
                plans = Plans.save (answered ports revision_id client s₀ a) a.s₄.plans;
              },
            ))
  unfolding request_config_switch Plans.find_by_id
  switch_lem id revision_id client plan s found done =
      let s₀ : State W = record s { plans = Plans.save (switched_plan plan) s.plans } in
      (
        (λ e.
            rw (found, switch_transition plan done, (prepare_lem ports revision_id client s₀).0 e)
              refl),
        (λ a e.
            rw (found, switch_transition plan done, (prepare_lem ports revision_id client s₀).1 a e)
              refl),
      )
