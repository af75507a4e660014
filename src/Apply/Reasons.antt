-- ===== src/Apply/Reasons.antt =====
-- deployment-apply.ts: every reason that a failed step is given is one that the journal takes.
use agx.Prelude.{String, ◌≡◌, refl, Option, none, some, true, arith, string_eq}
use agx.Prelude.Dict.{get}
use agx.Prelude.Text.{units}
use agx.Journal.{
  Step, StepKind, github_repository, github_project, provider_activation, migration_import,
}
use agx.Journal.Reasons.{reason_ok, is_slug}
use agx.Apply.Codes.{reason_code}
use agx.Apply.Remote.{Targets, Ports}
use agx.Apply.Spec.{
  Verdict, done, failed, try_step, try_kind, try_repository, try_project, try_provider,
}

abbrev pub Fits : String → Type 0
Fits reason = reason_ok (some (reason_code reason)) ≡ true

abbrev pub WellReasoned : Verdict → Type 0
WellReasoned done = Unit
WellReasoned (failed phase reason) = Fits reason

fixed_reasons :
    Fits "repository-target-missing"
    × Fits "repository-collision"
    × Fits "repository-provision-inconclusive"
    × Fits "repository-readback-inconclusive"
    × Fits "project-target-mismatch"
    × Fits "project-collision"
    × Fits "project-provision-inconclusive"
    × Fits "project-readback-inconclusive"
    × Fits "provider-target-missing"
    × Fits "provider-collision"
    × Fits "provider-activation-inconclusive"
unfolding reason_ok is_slug units reason_code
fixed_reasons = (refl, refl, refl, refl, refl, refl, refl, refl, refl, refl, refl)

module _ {W R P : Type 0} (targets : Targets R P) (ports : Ports W R P) (s : Step) (w : W) where
  repository-WellReasoned : (t : Option R) → WellReasoned (try_repository targets ports t w).0
  unfolding try_repository
  repository-WellReasoned none = fixed_reasons.0
  repository-WellReasoned (some t) = ground (arith, fixed_reasons)

  provider-WellReasoned : (t : Option P) → WellReasoned (try_provider targets ports t w).0
  unfolding try_provider
  provider-WellReasoned none = fixed_reasons.8
  provider-WellReasoned (some t) = ground (arith, fixed_reasons)

  project-WellReasoned : WellReasoned (try_project targets ports s w).0
  unfolding try_project
  project-WellReasoned = ground (arith, fixed_reasons)

  kind-WellReasoned : (k : StepKind) → WellReasoned (try_kind targets ports k s w).0
  unfolding try_kind
  kind-WellReasoned github_repository =
      repository-WellReasoned (get s.resource targets.repositories)
  kind-WellReasoned github_project = project-WellReasoned
  kind-WellReasoned provider_activation = provider-WellReasoned (get s.resource targets.providers)
  kind-WellReasoned migration_import = provider-WellReasoned (get s.resource targets.providers)

  pub try_step-WellReasoned : WellReasoned (try_step targets ports s w).0
  unfolding try_step
  try_step-WellReasoned = kind-WellReasoned s.kind
