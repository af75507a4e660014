-- ===== src/Preflight/Planning.antt =====
-- deployment-preflight.ts, prepareDeploymentPlan: a plan that is only stored if nothing blocks it.
pub mod Deciding
pub mod Applying
use agx.Prelude.{String, none, List, [], ◌∷◌}
use agx.Prelude.Outcome.{Outcome, returned, thrown, ◌>>=◌}
use agx.Prelude.Exec.{Exec}
use agx.Journal.{Journal, PlanInput}
use agx.Journal.Plan.{create_journal}
use agx.JournalStore
use agx.JournalStore.{Store}
use agx.Apply.{State}
use agx.Preflight.{Input, Blocker, Host, input_blockers, build_plan_input}
use agx.Preflight.Diagnosing.{diagnostic_plan}
use agx.Preflight.Asking.{Ports, Check, ask_sources, ask_remote}

-- The retention of a result is the constant 'retain'.
pub data Result : Type 0 where
  ready : Journal → Result
  blocked : Journal → List Blocker → Result

abbrev prepare_created : Outcome Journal → PlanInput → Store → Outcome Journal × Store
prepare_created (thrown e) input m = (thrown e, m)
prepare_created (returned r) input m = JournalStore.prepare input m

-- prepareDeploymentOperationPlan
unfoldable pub prepare_operation_plan : PlanInput → Store → Outcome Journal × Store
prepare_operation_plan input m = prepare_created (create_journal input) input m

module _ {W D : Type 0} (host : Host) (ports : Ports W D) where
  abbrev prepared : Outcome Journal × Store → W → Outcome Result × State W
  prepared (returned plan, m) w = (returned (ready plan), record { store = m; world = w })
  prepared (thrown e, m) w = (thrown e, record { store = m; world = w })

  after_remote : List Blocker × W → Input D → Store → Outcome Result × State W
  after_remote (b ∷ bs, w) input m = (
    returned (blocked (diagnostic_plan (build_plan_input host input)) (b ∷ bs)),
    record { store = m; world = w },
  )
  after_remote ([], w) input m = prepared (prepare_operation_plan (build_plan_input host input) m) w

  after_sources : List Blocker × W → Input D → Store → Outcome Result × State W
  after_sources (b ∷ bs, w) input m = (
    returned (blocked (diagnostic_plan (build_plan_input host input)) (b ∷ bs)),
    record { store = m; world = w },
  )
  after_sources ([], w) input m = after_remote (ask_remote host ports input w) input m

  after_input : List Blocker → Input D → Exec (State W) Result
  after_input (b ∷ bs) input s =
      (returned (blocked (diagnostic_plan (build_plan_input host input)) (b ∷ bs)), s)
  after_input [] input s = after_sources (ask_sources host ports input s.world) input s.store

  unfoldable pub prepare_deployment_plan : Input D → Exec (State W) Result
  unfolding after_remote after_sources after_input
  prepare_deployment_plan input s = after_input (input_blockers host input) input s
