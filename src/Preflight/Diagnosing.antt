-- ===== src/Preflight/Diagnosing.antt =====
-- deployment-preflight.ts, diagnosticPlan: the plan as it is shown when it is blocked.
use agx.Prelude.{
  ℕ, zero, suc, ◌/◌, ◌%◌, String, none, some, List, [], ◌∷◌, nat_eq, ◌==◌, if◌then◌else◌,
}
use agx.Prelude.Text.{texts}
use Prim.Native.String.{char_at}
use agx.Journal.{
  Journal, JournalPhase, Step, StepKind, StepPhase, PlanStep, PlanInput, github_repository,
  github_project, provider_activation, migration_import, retain,
}
use agx.Journal.Plan.{is_resource_id}

abbrev kind_text : StepKind → String
kind_text github_repository = "github-repository"
kind_text github_project = "github-project"
kind_text provider_activation = "provider-activation"
kind_text migration_import = "migration-import"

-- The decimal digits of a number before those of `end`, at most as many as the fuel; the successor
-- of a number is fuel enough for it.
decimal_digits : ℕ → ℕ → String → String
decimal_digits zero n end = end
decimal_digits (suc fuel) n end =
    let end' = String.◌∷◌ (char_at "0123456789" (n % 10)) end in
    let longer = decimal_digits fuel (n / 10) end' in if n / 10 == 0 then end' else longer

unfoldable pub diagnostic_steps : ℕ → List PlanStep → List Step
unfolding decimal_digits
diagnostic_steps n [] = []
diagnostic_steps n (p ∷ steps) =
    record {
      sequence = n;
      kind = p.kind;
      resource =
          if is_resource_id p.resource
          then p.resource
          else texts
              ("[invalid-" ∷ kind_text p.kind ∷ "-" ∷ decimal_digits (suc n) n "" ∷ "]" ∷ []);
      phase = StepPhase.pending;
      reason = none;
    }
    ∷ diagnostic_steps (suc n) steps

-- The plan has no list of resolutions.
unfoldable pub diagnostic_plan : PlanInput → Journal
diagnostic_plan input = record {
  operation_id =
      if is_resource_id input.operation_id then input.operation_id else "[invalid-operation-id]";
  deployment_id =
      if is_resource_id input.deployment_id then input.deployment_id else "[invalid-deployment-id]";
  revision_id = some input.revision_id;
  phase = JournalPhase.prepared;
  steps = diagnostic_steps 1 input.steps;
  resolutions = none;
  remote_retention = retain;
  next_action = "start-operation";
  reason = none;
}
