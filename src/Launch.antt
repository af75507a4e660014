-- ===== src/Launch.antt =====
-- packages/control-plane/src/application/launch.ts: preparing, confirming, rejecting and switching
-- launch plans. Running a plan is in Launch.Running.
pub mod Endings
pub mod World
pub mod Running
pub mod Viewing
pub mod Writes
pub mod Confirming
pub mod Preparing
pub mod Tests
use agx.Prelude.{
  String, Option, none, some, Bool, true, false, not, List, [], ◌∷◌, ◌++◌, if◌then◌else◌,
}
use agx.Prelude.Text.{texts}
use agx.Prelude.Optional.{or_else}
use agx.Prelude.Outcome.{Outcome, returned, thrown}
use agx.Prelude.Exec.{Exec, pure, throw, ◌>>=◌}
use agx.Prelude.Checked.{Checked, ok, refused}
use agx.Client.{ClientId, client_text, resolve_client_support}
use agx.Config.{CapabilityReference, StableConfigRevision}
use agx.Activation.{
  LaunchPhase, LaunchPlan, LaunchPlanEvent, prepared_ok, prepared_failed, confirmed, rejected,
  switch_requested, create_launch_plan, transition_launch_plan,
}
use agx.Activation.Hash.{compute_plan_hash}
use agx.Activation.Names.{phase_text}
use agx.Queries.{Detail, detail, no_detail, get_config_revision_detail}
use agx.Plans
use agx.Plans.{Plans}
use World.{State, Ports}

abbrev pub unsupported_client : ClientId → Option String → String
unsupported_client client reason = texts (
    "client not supported: "
    ∷ client_text client
    ∷ " ("
    ∷ or_else reason "unsupported client"
    ∷ ")"
    ∷ [])

abbrev pub stale_confirmation : String → String → String
stale_confirmation id reason = texts (
    "confirmation is stale for plan " ∷ id ∷ " (" ∷ reason
    ∷ "); a plan can only be confirmed once, and only while it is still awaiting confirmation -- start the launch flow again for a new confirmation"
    ∷ [])

abbrev pub invalid_transition : String → LaunchPhase → String → String → String
invalid_transition id phase event reason = texts (
    "invalid transition for plan "
    ∷ id
    ∷ ": cannot apply \""
    ∷ event
    ∷ "\" while in phase \""
    ∷ phase_text phase
    ∷ "\" ("
    ∷ reason
    ∷ ")"
    ∷ [])

abbrev pub plan_not_found : String → String
plan_not_found id = texts ("launch plan not found: " ∷ id ∷ [])

abbrev noted_if_any : List CapabilityReference → String → List String
noted_if_any [] note = []
noted_if_any (r ∷ refs) note = note ∷ []

unfoldable pub compute_known_differences : StableConfigRevision → List String
compute_known_differences r =
    noted_if_any r.instructions "instructions-content-not-materialized-in-mvp"
    ++ noted_if_any r.mcp "mcp-content-not-materialized-in-mvp"
    ++ noted_if_any r.hooks "hooks-content-not-materialized-in-mvp"
    ++ noted_if_any r.plugins "plugins-content-not-materialized-in-mvp"

abbrev pub name_of : Detail → String → String
name_of (detail r) revision_id = r.config_name
name_of (no_detail reason) revision_id = revision_id

abbrev pub event_of : Detail → LaunchPlanEvent
event_of (detail r) = prepared_ok
event_of (no_detail reason) = prepared_failed reason

abbrev event_text : Detail → String
event_text (detail r) = "prepared-ok"
event_text (no_detail reason) = "prepared-failed"

abbrev pub own_token : LaunchPlan → String → LaunchPlanEvent
own_token plan issued_at = confirmed (record {
  plan_id = plan.plan_id;
  revision_id = plan.revision_id;
  plan_hash = plan.plan_hash;
  issued_at = issued_at;
})

module _ {W : Type 0} where
  abbrev pub find_plan : String → Exec (State W) (Option LaunchPlan)
  find_plan id s = (returned (Plans.find_by_id id s.plans), s)

  abbrev pub save_plan : LaunchPlan → Exec (State W) LaunchPlan
  save_plan plan s = (returned plan, record s { plans = Plans.save plan s.plans })

  abbrev pub save_if_phase : LaunchPlan → LaunchPhase → Exec (State W) Bool
  save_if_phase plan expected s =
      let (saved, m) = Plans.save_if_phase plan expected s.plans in
      (returned saved, record s { plans = m })

module _ {W : Type 0} (ports : Ports W) where
  -- the call of `getConfigRevisionDetail`
  abbrev pub revision_detail : String → Exec (State W) Detail
  revision_detail = get_config_revision_detail ports.find_revision

  -- `saveIfCurrent`
  unfoldable pub save_if_current : LaunchPlan → LaunchPhase → Exec (State W) Bool
  save_if_current plan expected =
      if ports.guards_writes
      then save_if_phase plan expected
      else (do saved ← save_plan plan; pure true)

  -- `if (!(await saveIfCurrent(deps, plan, expected))) throw …; return plan`
  unfoldable pub save_or_throw : LaunchPlan → LaunchPhase → String → Exec (State W) LaunchPlan
  save_or_throw plan expected message = do
    saved ← save_if_current plan expected
    if not saved then throw message else pure plan

  unfoldable pub finish_prepare :
      Checked LaunchPlan → LaunchPlan → Detail → Exec (State W) LaunchPlan
  finish_prepare (refused reason) plan found =
      throw (invalid_transition plan.plan_id plan.phase (event_text found) reason)
  finish_prepare (ok plan') plan found = save_plan plan'

  -- the plan that `prepareLaunchPlan` creates
  abbrev pub new_plan : String → ClientId → String → Detail → String → String → LaunchPlan
  new_plan revision_id client created_at found plan_uuid op_uuid = create_launch_plan (record {
    plan_id = texts ("plan-" ∷ plan_uuid ∷ []);
    operation_id = texts ("op-" ∷ op_uuid ∷ []);
    revision_id = revision_id;
    config_name = name_of found revision_id;
    client = client;
    plan_hash = compute_plan_hash revision_id client created_at;
    created_at = created_at;
  })

  unfoldable pub prepare_launch_plan : String → ClientId → Exec (State W) LaunchPlan
  unfolding finish_prepare
  prepare_launch_plan revision_id client =
      let support = resolve_client_support client in
      if not support.supported then throw (unsupported_client client support.reason) else do
        created_at ← ports.now
        found ← revision_detail revision_id
        plan_uuid ← ports.random_id
        op_uuid ← ports.random_id
        let plan = new_plan revision_id client created_at found plan_uuid op_uuid
        finish_prepare (transition_launch_plan plan (event_of found)) plan found

  confirm_saved : Checked LaunchPlan → LaunchPlan → String → Exec (State W) LaunchPlan
  confirm_saved (refused reason) plan id = throw (stale_confirmation id reason)
  confirm_saved (ok plan') plan id =
      save_or_throw plan' plan.phase (stale_confirmation id "stale-plan-write")

  -- what follows the read of the plan in `confirmLaunchPlan`
  unfoldable pub confirm_read : Option LaunchPlan → String → Exec (State W) LaunchPlan
  unfolding confirm_saved
  confirm_read none id = throw (plan_not_found id)
  confirm_read (some plan) id = do
    issued_at ← ports.now
    confirm_saved (transition_launch_plan plan (own_token plan issued_at)) plan id

  unfoldable pub confirm_launch_plan : String → Exec (State W) LaunchPlan
  confirm_launch_plan id = do found ← find_plan id; confirm_read found id

  reject_saved : Checked LaunchPlan → LaunchPlan → String → Exec (State W) LaunchPlan
  reject_saved (refused reason) plan id = throw (invalid_transition id plan.phase "rejected" reason)
  reject_saved (ok plan') plan id =
      save_or_throw plan' plan.phase
        (invalid_transition id plan.phase "rejected" "stale-plan-write")

  -- what follows the read of the plan in `rejectLaunchPlan`
  unfoldable pub reject_read : Option LaunchPlan → String → Exec (State W) LaunchPlan
  unfolding reject_saved
  reject_read none id = throw (plan_not_found id)
  reject_read (some plan) id = reject_saved (transition_launch_plan plan rejected) plan id

  unfoldable pub reject_launch_plan : String → Exec (State W) LaunchPlan
  reject_launch_plan id = do found ← find_plan id; reject_read found id

  switch_saved :
      Checked LaunchPlan
      → LaunchPlan
      → String
      → String
      → ClientId
      → Exec (State W) (LaunchPlan × LaunchPlan)
  switch_saved (refused reason) plan id revision_id client =
      throw (invalid_transition id plan.phase "switch-requested" reason)
  switch_saved (ok plan') plan id revision_id client = do
    previous ← save_plan plan'
    next ← prepare_launch_plan revision_id client
    pure (previous, next)

  switch_read :
      Option LaunchPlan → String → String → ClientId → Exec (State W) (LaunchPlan × LaunchPlan)
  switch_read none id revision_id client = throw (plan_not_found id)
  switch_read (some plan) id revision_id client =
      switch_saved (transition_launch_plan plan switch_requested) plan id revision_id client

  -- the previous plan and the new one
  unfoldable pub request_config_switch :
      String → String → ClientId → Exec (State W) (LaunchPlan × LaunchPlan)
  unfolding switch_read switch_saved
  request_config_switch id revision_id client = do
    found ← find_plan id
    switch_read found id revision_id client
