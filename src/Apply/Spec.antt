-- ===== src/Apply/Spec.antt =====
-- deployment-apply.ts, as a specification without a journal: each pending step is tried on the
-- remote side in order, and the first one that fails ends the run.
use agx.Prelude.{
  String, Option, none, some, Bool, true, false, List, [], ◌∷◌, string_eq, ◌==◌, if◌then◌else◌,
}
use agx.Prelude.Dict.{get}
use agx.Prelude.Outcome.{returned, thrown}
use agx.Prelude.Exec.{Exec}
use agx.Journal.{Step, StepKind, StepPhase, is_pending, github_repository, github_project}
use agx.Apply.{FailPhase, step_phase}
use agx.Apply.Codes.{reason_code}
use agx.Apply.Remote.{
  RepositoryProvision, RepositoryReadback, ProjectProvision, ProjectReadback, Activation, Targets,
  Ports,
}

-- What became of one step: done, or the phase and the reason of its failure.
pub data Verdict : Type 0 where
  done : Verdict
  failed : FailPhase → String → Verdict

abbrev pub uncertain : String → Verdict
uncertain = failed FailPhase.inconclusive

abbrev pub manual : String → Verdict
manual = failed FailPhase.needs_manual_cleanup

abbrev pub settled : Step → Verdict → Step
settled s done = record s { phase = StepPhase.succeeded }
settled s (failed phase reason) = record s {
  phase = step_phase phase;
  reason = some (reason_code reason);
}

module _ {W R P : Type 0} (targets : Targets R P) (ports : Ports W R P) where
  -- Missing and thrown results read alike.
  abbrev ask : {A : Type 0} → Exec W A → W → Option A × W
  ask m w = let (r, w') = m w in (elim r [ returned a ↦ some a | thrown e ↦ none ], w')

  unfoldable pub try_repository : Option R → W → Verdict × W
  try_repository none w = (manual "repository-target-missing", w)
  try_repository (some target) w =
      let (provision, w₁) = ask (ports.provision_repository target) w in
      let (readback, w₂) = ask (ports.readback_repository target) w₁ in
      elim provision [
        | some RepositoryProvision.created ↦ elim readback [
          | some RepositoryReadback.present ↦ (done, w₂)
          | _ ↦ (uncertain "repository-readback-inconclusive", w₂)
        ]
        | some RepositoryProvision.collision ↦ (manual "repository-collision", w₁)
        | _ ↦ (uncertain "repository-provision-inconclusive", w₁)
      ]

  abbrev linked_ok : Option ProjectReadback → Bool
  linked_ok (some (ProjectReadback.present linked)) = linked
  linked_ok _ = false

  unfoldable pub try_project : Step → W → Verdict × W
  try_project s w =
      if s.resource == targets.project.installation_id
      then (let (provision, w₁) = ask (ports.provision_project targets.project) w in
          elim provision [
            | some (ProjectProvision.created number) ↦
                let (readback, w₂) = ask (ports.readback_project targets.project number) w₁ in
                (if linked_ok readback then done else uncertain "project-readback-inconclusive", w₂)
            | some ProjectProvision.collision ↦ (manual "project-collision", w₁)
            | _ ↦ (uncertain "project-provision-inconclusive", w₁)
          ])
      else (manual "project-target-mismatch", w)

  unfoldable pub try_provider : Option P → W → Verdict × W
  try_provider none w = (manual "provider-target-missing", w)
  try_provider (some target) w =
      let (activation, w₁) = ask (ports.activate_provider target) w in
      elim activation [
        | some Activation.activated ↦ (done, w₁)
        | some Activation.collision ↦ (manual "provider-collision", w₁)
        | _ ↦ (uncertain "provider-activation-inconclusive", w₁)
      ]

  unfoldable pub try_kind : StepKind → Step → W → Verdict × W
  try_kind github_repository s w = try_repository (get s.resource targets.repositories) w
  try_kind github_project s w = try_project s w
  try_kind _ s w = try_provider (get s.resource targets.providers) w

  unfoldable pub try_step : Step → W → Verdict × W
  try_step s w = try_kind s.kind s w

  -- The steps as they end up, the failure if there was one, and the world.
  unfoldable pub run_plan : List Step → W → List Step × Option FailPhase × W
  run_plan [] w = ([], none, w)
  run_plan (s ∷ rest) w =
      let skipped = run_plan rest w in
      let (verdict, w') = try_step s w in
      let later = run_plan rest w' in
      elim (is_pending s) [
        | false ↦ (s ∷ skipped.0, skipped.1, skipped.2)
        | true ↦ elim verdict [
          | done ↦ (settled s done ∷ later.0, later.1, later.2)
          | failed phase reason ↦ (settled s (failed phase reason) ∷ rest, some phase, w')
        ]
      ]
