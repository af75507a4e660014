-- ===== src/Preflight/Tests.antt =====
-- A deployment of one repository and one provider, where all ports answer as they should; and where
-- one throws.
use agx.Prelude.{ℕ, suc, ◌≡◌, refl, none, some, true, false, leb, [], ◌∷◌}
use agx.Prelude.Text.{is_blank, trim, units, all_in, text_before}
use agx.Prelude.Dict.{get, put}
use agx.Prelude.Outcome.{returned, thrown}
use agx.Prelude.Exec.{Exec}
use agx.Queries.{Lookup}
use agx.Launch.Tests.{base}
use agx.Journal.Plan.{is_resource_id, create_journal, plan_steps}
use agx.JournalStore
use agx.Apply.{State}
use agx.Preflight.{
  Input, Host, blocker, input_blockers, build_plan_input, resource_blockers, sort_by, insert_by,
}
use agx.Preflight.Diagnosing.{diagnostic_plan}
use agx.Preflight.Asking.{
  Ports, SourceValidation, Readiness, InventoryResult, ask_remote, each, same_source, drop_slashes,
  forward_slashes,
}
use agx.Preflight.Planning.{ready, blocked, prepare_operation_plan, prepare_deployment_plan}
use agx.Preflight.Planning.Deciding.{Ends, planned, preflight_lem}
use agx.Preflight.Planning.Applying.{ready_runs}
use agx.Apply.{ApplyResult, apply_deployment_plan}
use agx.Apply.Tests.{targets, ports as remote_side}
use agx.Apply.Outcomes.{Ran}

abbrev host : Host
host = record {
  lower = λ s. s;
  is_absolute = λ s. true;
  is_letter_or_number = λ c. leb 65 c;
  before = text_before;
}

abbrev answer : {A : Type 0} → A → Exec ℕ A
answer a n = (returned a, suc n)

abbrev ports : Ports ℕ Unit
ports = record {
  validate_source = λ path root. answer SourceValidation.valid;
  find_revision = λ id. answer (Lookup.revision base);
  repository_preflight = λ t. answer Readiness.ready;
  project_preflight = λ t. answer Readiness.ready;
  inspect_provider = λ p. answer (
      InventoryResult.observed (record {
        provider = p;
        marketplace_present = true;
        marketplace_source = some "https://example.org/market/";
      }));
  readback_subject = none;
}

abbrev input : Input Unit
input = record {
  source_root = "/src";
  deployment_id = "dep-1";
  operation_id = "op-1";
  revision_id = "rev-1";
  repositories =
      record { owner = "acme"; name = "app"; source_path = "/src/app"; details = tt } ∷ [];
  project = record {
    owner = "acme";
    title = "App";
    is_public = false;
    linked_repository = "acme/app";
    installation_id = "install-1";
  };
  providers =
      record { provider = "codex"; marketplace_source = "https://example.org/market"; details = tt }
      ∷ [];
  subjects = [];
}

abbrev empty : State ℕ
empty = record { store = []; world = 0 }

plan_ready : prepare_deployment_plan host ports input empty ≡ (
  returned (ready (planned host ports input)),
  record { store = ("op-1", planned host ports input) ∷ []; world = 5 },
)
unfolding prepare_deployment_plan input_blockers is_resource_id units all_in is_blank trim
    resource_blockers each sort_by insert_by ask_remote same_source drop_slashes forward_slashes
    prepare_operation_plan create_journal plan_steps build_plan_input JournalStore.prepare put get
    text_before
plan_ready = refl

preflight_example : Ends host ports input [] (prepare_deployment_plan host ports input empty)
preflight_example = preflight_lem host ports input empty

abbrev ready_state : State ℕ
ready_state = record { store = ("op-1", planned host ports input) ∷ []; world = 5 }

ready_runs_example :
    (r : ApplyResult) × (s : State ℕ) × (apply_deployment_plan targets remote_side "op-1"
        ready_state
      ≡ (returned r, s))
    × Ran ready_state (planned host ports input) r s
ready_runs_example =
    ready_runs host ports input targets remote_side empty ready_state (planned host ports input)
      plan_ready

abbrev throwing : Ports ℕ Unit
throwing = record ports { project_preflight = λ t n. (thrown "no network", suc n) }

plan_blocked : prepare_deployment_plan host throwing input empty ≡ (
  returned (
      blocked
        (diagnostic_plan (build_plan_input host input))
        (blocker "App" "project-inconclusive" ∷ [])),
  record { store = []; world = 5 },
)
unfolding prepare_deployment_plan input_blockers is_resource_id units all_in is_blank trim
    resource_blockers each sort_by insert_by ask_remote same_source drop_slashes forward_slashes
plan_blocked = refl
