-- ===== src/Apply.antt =====
-- packages/control-plane/src/application/deployment-apply.ts: carrying out the plan of an operation
-- step by step, and writing each result to the journal before the next remote call.
pub mod Remote
pub mod Codes
pub mod Spec
pub mod Rounds
pub mod Guards
pub mod Resuming
pub mod Outcomes
pub mod Plans
pub mod Correct
pub mod Refinement
pub mod Reasons
pub mod Journalling
pub mod Tests
use agx.Prelude.{
  String, Option, none, some, Bool, true, false, not, List, [], ◌∷◌, StrictEq, string_eq, ◌==◌,
  if◌then◌else◌, find, ◌&&◌,
}
use agx.Prelude.Dict.{Dict, get}
use agx.Prelude.Outcome.{Outcome, returned, thrown}
use agx.Prelude.Exec.{Exec, pure, attempt, ◌>>=◌}
use agx.Time.{DateParse}
use agx.Journal.{
  Step, StepKind, StepPhase, JournalPhase, Journal, Resolution, is_pending, github_repository,
  github_project, provider_activation, migration_import,
}
use agx.Journal.Run.{FinishPhase}
use agx.JournalStore
use agx.JournalStore.{Store}
use Remote.{
  RepositoryProvision, RepositoryReadback, ProjectProvision, ProjectReadback, Activation, Targets,
  Ports,
}
use Codes.{reason_code}

pub data ApplyKind : Type 0 where
  succeeded inconclusive needs_manual_cleanup blocked : ApplyKind

-- The retention of a result is the constant 'retain'.
pub record ApplyResult : Type 0 where
  pub kind : ApplyKind
  pub operation : Option Journal
  pub next_action : String

pub record State (W : Type 0) : Type 0 where
  pub store : Store
  pub world : W

pub data FailPhase : Type 0 where
  inconclusive needs_manual_cleanup : FailPhase

abbrev pub step_phase : FailPhase → StepPhase
step_phase FailPhase.inconclusive = StepPhase.inconclusive
step_phase FailPhase.needs_manual_cleanup = StepPhase.needs_manual_cleanup

abbrev pub apply_kind : FailPhase → ApplyKind
apply_kind FailPhase.inconclusive = ApplyKind.inconclusive
apply_kind FailPhase.needs_manual_cleanup = ApplyKind.needs_manual_cleanup

-- `nextAction ?? operation?.nextAction ?? 'inspect-diagnostics'`
abbrev next_of : Option String → Option Journal → String
next_of (some action) operation = action
next_of none (some operation) = operation.next_action
next_of none none = "inspect-diagnostics"

abbrev pub result : ApplyKind → Option Journal → Option String → ApplyResult
result kind operation action = record {
  kind = kind;
  operation = operation;
  next_action = next_of action operation;
}

-- One round of the loop ends the run or goes on with the operation that the journal returned.
pub data Progress : Type 0 where
  go_on : Journal → Progress
  stop : ApplyResult → Progress

abbrev is_active : JournalPhase → Bool
is_active JournalPhase.applying = true
is_active JournalPhase.observing = true
is_active _ = false

module _ {W : Type 0} where
  abbrev pub on_store : (Store → Outcome Journal × Store) → Exec (State W) Journal
  on_store f s = let (r, m) = f s.store in (r, record s { store = m })

  abbrev pub remote : {A : Type 0} → Exec W A → Exec (State W) A
  remote f s = let (r, w) = f s.world in (r, record s { world = w })

  abbrev find_operation : String → Exec (State W) (Option Journal)
  find_operation id s = (returned (get id s.store), s)

  fail_at : Option Step → Journal → FailPhase → String → Exec (State W) Progress
  fail_at none operation phase reason = pure (stop (result ApplyKind.blocked (some operation) none))
  fail_at (some pending) operation phase reason = do
    updated ← on_store (
        JournalStore.append operation.operation_id
          (record pending { phase = step_phase phase; reason = some (reason_code reason) }))
    pure (stop (result (apply_kind phase) (some updated) none))

  unfoldable pub append_failure : Journal → FailPhase → String → Exec (State W) Progress
  unfolding fail_at
  append_failure operation phase reason =
      fail_at (find is_pending operation.steps) operation phase reason

  unfoldable pub append_success : Journal → Step → Exec (State W) Progress
  append_success operation planned = do
    updated ← on_store (
        JournalStore.append operation.operation_id (record planned { phase = StepPhase.succeeded }))
    pure (go_on updated)

module _ {W R P : Type 0} (targets : Targets R P) (ports : Ports W R P) where
  apply_repository : Journal → Step → Option R → Exec (State W) Progress
  apply_repository operation planned none =
      append_failure operation FailPhase.needs_manual_cleanup "repository-target-missing"
  apply_repository operation planned (some target) = do
    provision ← attempt (remote (ports.provision_repository target))
    elim provision [
      | none ↦ append_failure operation FailPhase.inconclusive "repository-provision-inconclusive"
      | some RepositoryProvision.collision ↦
          append_failure operation FailPhase.needs_manual_cleanup "repository-collision"
      | some RepositoryProvision.inconclusive ↦
          append_failure operation FailPhase.inconclusive "repository-provision-inconclusive"
      | some RepositoryProvision.created ↦ do
        readback ← attempt (remote (ports.readback_repository target))
        elim readback [
          | some RepositoryReadback.present ↦ append_success operation planned
          | _ ↦ append_failure operation FailPhase.inconclusive "repository-readback-inconclusive"
        ]
    ]

  apply_project : Journal → Step → Exec (State W) Progress
  apply_project operation planned =
      if not (planned.resource == targets.project.installation_id)
      then append_failure operation FailPhase.needs_manual_cleanup "project-target-mismatch"
      else do
        provision ← attempt (remote (ports.provision_project targets.project))
        elim provision [
          | none ↦ append_failure operation FailPhase.inconclusive "project-provision-inconclusive"
          | some ProjectProvision.collision ↦
              append_failure operation FailPhase.needs_manual_cleanup "project-collision"
          | some ProjectProvision.inconclusive ↦
              append_failure operation FailPhase.inconclusive "project-provision-inconclusive"
          | some (ProjectProvision.created number) ↦ do
            readback ← attempt (remote (ports.readback_project targets.project number))
            elim readback [
              | some (ProjectReadback.present linked) ↦
                  if linked
                  then append_success operation planned
                  else append_failure operation FailPhase.inconclusive
                      "project-readback-inconclusive"
              | _ ↦ append_failure operation FailPhase.inconclusive "project-readback-inconclusive"
            ]
        ]

  apply_provider : Journal → Step → Option P → Exec (State W) Progress
  apply_provider operation planned none =
      append_failure operation FailPhase.needs_manual_cleanup "provider-target-missing"
  apply_provider operation planned (some target) = do
    activation ← attempt (remote (ports.activate_provider target))
    elim activation [
      | none ↦ append_failure operation FailPhase.inconclusive "provider-activation-inconclusive"
      | some Activation.collision ↦
          append_failure operation FailPhase.needs_manual_cleanup "provider-collision"
      | some Activation.inconclusive ↦
          append_failure operation FailPhase.inconclusive "provider-activation-inconclusive"
      | some Activation.activated ↦ append_success operation planned
    ]

  -- the branches on `planned.kind`; the last one takes every other kind
  apply_kind_of : StepKind → Journal → Step → Exec (State W) Progress
  apply_kind_of github_repository operation planned =
      apply_repository operation planned (get planned.resource targets.repositories)
  apply_kind_of github_project operation planned = apply_project operation planned
  apply_kind_of _ operation planned =
      apply_provider operation planned (get planned.resource targets.providers)

  pub apply_step : Journal → Step → Exec (State W) Progress
  apply_step operation planned = apply_kind_of planned.kind operation planned

  pub run_steps : List Step → Journal → Exec (State W) ApplyResult
  run_steps [] operation = do
    finished ← on_store (JournalStore.finish operation.operation_id FinishPhase.succeeded none)
    pure (result ApplyKind.succeeded (some finished) none)
  run_steps (planned ∷ rest) operation = elim (is_pending planned) [
    | false ↦ run_steps rest operation
    | true ↦ do
      progress ← apply_step operation planned
      elim progress [ go_on updated ↦ run_steps rest updated | stop r ↦ pure r ]
  ]

  run_active : Journal → Exec (State W) ApplyResult
  unfolding run_steps
  run_active operation =
      if is_active operation.phase
      then run_steps operation.steps operation
      else pure (result ApplyKind.blocked (some operation) none)

  -- the early returns of `applyDeploymentPlan`, by the phase that the journal has
  begin_at : JournalPhase → Journal → Exec (State W) ApplyResult
  unfolding run_active
  begin_at JournalPhase.succeeded operation =
      pure (result ApplyKind.succeeded (some operation) none)
  begin_at JournalPhase.inconclusive operation =
      pure (result ApplyKind.inconclusive (some operation) none)
  begin_at JournalPhase.prepared operation = do
    started ← on_store (JournalStore.start operation.operation_id)
    run_active started
  begin_at JournalPhase.needs_resume operation = do
    started ← on_store (JournalStore.start operation.operation_id)
    run_active started
  begin_at JournalPhase.applying operation = run_active operation
  begin_at JournalPhase.observing operation = run_active operation
  begin_at _ operation = pure (result ApplyKind.needs_manual_cleanup (some operation) none)

  begin_found : Option Journal → Exec (State W) ApplyResult
  unfolding begin_at
  begin_found none = pure (result ApplyKind.blocked none none)
  begin_found (some operation) = begin_at operation.phase operation

  unfoldable pub apply_deployment_plan : String → Exec (State W) ApplyResult
  unfolding begin_found
  apply_deployment_plan id = do found ← find_operation id; begin_found found

  recover_found : Option Journal → String → String → Exec (State W) ApplyResult
  recover_found none id deployment_id =
      pure (result ApplyKind.blocked none (some "operation-not-found"))
  recover_found (some operation) id deployment_id =
      if not (operation.deployment_id == deployment_id)
      then pure (result ApplyKind.blocked (some operation) (some "operation-identity-mismatch"))
      else apply_deployment_plan id

  unfoldable pub recover_deployment_operation : String → String → Exec (State W) ApplyResult
  unfolding recover_found
  recover_deployment_operation id deployment_id = do
    found ← find_operation id
    recover_found found id deployment_id

abbrev resolved_kind : JournalPhase → ApplyKind
resolved_kind JournalPhase.needs_manual_cleanup = ApplyKind.needs_manual_cleanup
resolved_kind _ = ApplyKind.inconclusive

module _ {W : Type 0} (parse : DateParse) where
  unfoldable pub resolve_deployment_operation :
      String → String → Resolution → String → Exec (State W) ApplyResult
  resolve_deployment_operation id deployment_id resolution now =
      if not (resolution.operation_id == id && resolution.deployment_id == deployment_id)
      then (do
        found ← find_operation id
        pure (result ApplyKind.inconclusive found (some "observe-remote-state")))
      else do
        operation ← on_store (JournalStore.resolve parse id resolution now)
        pure (result (resolved_kind operation.phase) (some operation) none)
