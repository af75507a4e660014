-- ===== src/Apply/Rounds.antt =====
-- deployment-apply.ts: one round of the loop tries the step and journals its verdict.
use agx.Prelude.{◌≡◌, refl, Option, none, some, arith, inl, inr, Bool-cases, string_eq, ◌==◌}
use agx.Prelude.Dict.{get}
use agx.Prelude.Outcome.{Outcome}
use agx.Journal.{
  Step, StepKind, Journal, github_repository, github_project, provider_activation, migration_import,
}
use agx.Apply.{
  State, Progress, append_failure, append_success, apply_step, apply_kind_of, apply_repository,
  apply_project, apply_provider,
}
use agx.Apply.Remote.{Targets, Ports}
use agx.Apply.Spec.{
  Verdict, done, failed, try_step, try_kind, try_repository, try_project, try_provider,
}

module _ {W : Type 0} (operation : Journal) (planned : Step) where
  abbrev pub journalled : Verdict × W → State W → Outcome Progress × State W
  journalled (done, w) s = append_success operation planned (record s { world = w })
  journalled (failed phase reason, w) s =
      append_failure operation phase reason (record s { world = w })

module _ {W R P : Type 0} (targets : Targets R P) (ports : Ports W R P) (operation : Journal)
    (planned : Step) (s : State W) where
  apply_repository_lem :
      (t : Option R)
      → apply_repository targets ports operation planned t s
        ≡ journalled operation planned (try_repository targets ports t s.world) s
  unfolding apply_repository try_repository
  apply_repository_lem none = refl
  apply_repository_lem (some t) = ground arith

  apply_provider_lem :
      (t : Option P)
      → apply_provider targets ports operation planned t s
        ≡ journalled operation planned (try_provider targets ports t s.world) s
  unfolding apply_provider try_provider
  apply_provider_lem none = refl
  apply_provider_lem (some t) = ground arith

  apply_project_lem :
      apply_project targets ports operation planned s
      ≡ journalled operation planned (try_project targets ports planned s.world) s
  unfolding apply_project try_project
  apply_project_lem = elim (Bool-cases (planned.resource == targets.project.installation_id)) [
    | inl same ↦ rw same (ground arith)
    | inr other ↦ rw other refl
  ]

  apply_kind_lem :
      (k : StepKind)
      → apply_kind_of targets ports k operation planned s
        ≡ journalled operation planned (try_kind targets ports k planned s.world) s
  unfolding apply_kind_of try_kind
  apply_kind_lem github_repository =
      apply_repository_lem (get planned.resource targets.repositories)
  apply_kind_lem github_project = apply_project_lem
  apply_kind_lem provider_activation = apply_provider_lem (get planned.resource targets.providers)
  apply_kind_lem migration_import = apply_provider_lem (get planned.resource targets.providers)

  pub apply_step_lem :
      apply_step targets ports operation planned s
      ≡ journalled operation planned (try_step targets ports planned s.world) s
  unfolding apply_step try_step
  apply_step_lem = apply_kind_lem planned.kind
