-- ===== src/Apply/Tests.antt =====
-- Runs of applyDeploymentPlan against remote sides that count the calls they get.
use agx.Prelude.{ℕ, suc, String, false, ◌≡◌, ◌≢◌, refl, none, some, [], ◌∷◌, inr, ◌⊎◌}
use agx.Prelude.Dict.{get, put}
use agx.Prelude.Outcome.{returned, thrown}
use agx.Prelude.Exec.{Exec}
use agx.Prelude.Text.{units}
use agx.Journal.Reasons.{reason_ok, is_slug}
use agx.Journal.{Step, StepPhase, JournalPhase, Journal, github_repository, github_project}
use agx.Journal.Resolve.{reopen, resolve_inconclusive}
use agx.Journal.Tests.{fresh, fresh-NumberedFrom, uncertain, resumable, seen, clock, resolve_seen}
use agx.Apply.{
  State, ApplyKind, ApplyResult, result, apply_deployment_plan, resolve_deployment_operation,
  resolved_kind,
}
use agx.Apply.Remote.{
  RepositoryProvision, RepositoryReadback, ProjectProvision, ProjectReadback, Targets, Ports,
}
use agx.Apply.Spec.{run_plan}
use agx.Apply.Refinement.{ended}
use agx.Apply.Correct.{IsReady, started, start_of, applied, apply_refines}
use agx.Apply.Outcomes.{Ran, apply-Ran}
use agx.Apply.Resuming.{apply_resumes}
use agx.Apply.Guards.{resolve_deployment_lem}

abbrev pub targets : Targets String String
targets = record {
  repositories = ("acme/app", "repository of acme/app") ∷ [];
  project = record {
    owner = "acme";
    title = "app";
    is_public = false;
    linked_repository = "acme/app";
    installation_id = "install-1";
  };
  providers = [];
}

abbrev pub answer : {A : Type 0} → A → Exec ℕ A
answer a n = (returned a, suc n)

-- A remote side where everything works, but the project is not linked.
abbrev pub ports : Ports ℕ String String
ports = record {
  provision_repository = λ t. answer RepositoryProvision.created;
  readback_repository = λ t. answer RepositoryReadback.present;
  provision_project = λ t. answer (ProjectProvision.created 7);
  readback_project = λ t n. answer (ProjectReadback.present false);
  activate_provider = λ t n. (thrown "no network", n);
}

abbrev in_store : Journal → State ℕ
in_store op = record { store = (op.operation_id, op) ∷ []; world = 0 }

fresh-IsReady : IsReady (in_store fresh) fresh
unfolding get reason_ok
fresh-IsReady = record {
  stored = refl;
  numbered = fresh-NumberedFrom;
  reasoned = (refl, (refl, tt));
}

apply_refines_example :
    apply_deployment_plan targets ports "op-1" (in_store fresh)
    ≡ applied targets ports (in_store fresh) fresh (start_of JournalPhase.prepared fresh)
apply_refines_example = apply_refines targets ports (in_store fresh) fresh fresh-IsReady

apply-Ran_example :
    (r : ApplyResult) × (s' : State ℕ) × (apply_deployment_plan targets ports "op-1"
        (in_store fresh)
      ≡ (returned r, s'))
    × Ran (in_store fresh) fresh r s'
apply-Ran_example =
    apply-Ran targets ports (in_store fresh) fresh (started fresh) fresh-IsReady
      (inr refl, (inr refl, tt)) refl

uncertain-IsReady : IsReady (in_store uncertain) uncertain
unfolding get reason_ok units is_slug
uncertain-IsReady = record {
  stored = refl;
  numbered = (refl, (refl, tt));
  reasoned = (refl, (refl, tt));
}

abbrev reopened_first : Step
reopened_first = record {
  sequence = 1;
  kind = github_repository;
  resource = "acme/app";
  phase = StepPhase.pending;
  reason = none;
}

abbrev second : Step
second = record {
  sequence = 2;
  kind = github_project;
  resource = "install-1";
  phase = StepPhase.pending;
  reason = none;
}

abbrev first : Step
first = record reopened_first {
  phase = StepPhase.inconclusive;
  reason = some "repository-readback-inconclusive";
}

apply_resumes_example :
    apply_deployment_plan targets ports "op-1" (in_store resumable)
    ≡ ended
        (in_store resumable)
        (started resumable)
        []
        (run_plan targets ports (reopen first ∷ second ∷ []) 0)
unfolding put
apply_resumes_example =
    apply_resumes targets ports clock (in_store uncertain) uncertain resumable seen
      "2026-01-01T00:10:00Z" [] first (second ∷ []) uncertain-IsReady refl tt refl resolve_seen refl

resolve_deployment_example :
    ((seen.operation_id ≢ "op-1") ⊎ (seen.deployment_id ≢ "dep-1")
      → resolve_deployment_operation clock "op-1" "dep-1" seen "2026-01-01T00:10:00Z"
          (in_store uncertain)
        ≡ (
          returned (result ApplyKind.inconclusive (some uncertain) (some "observe-remote-state")),
          in_store uncertain,
        ))
    × ((op op' : Journal)
        → seen.operation_id ≡ "op-1"
        → seen.deployment_id ≡ "dep-1"
        → get "op-1" (in_store uncertain).store ≡ some op
        → resolve_inconclusive clock op seen "2026-01-01T00:10:00Z" ≡ returned op'
        → resolve_deployment_operation clock "op-1" "dep-1" seen "2026-01-01T00:10:00Z"
            (in_store uncertain)
          ≡ (
            returned (result (resolved_kind op'.phase) (some op') none),
            record (in_store uncertain) { store = put "op-1" op' (in_store uncertain).store },
          ))
    × (seen.operation_id ≡ "op-1"
        → seen.deployment_id ≡ "dep-1"
        → get "op-1" (in_store uncertain).store ≡ none
        → resolve_deployment_operation clock "op-1" "dep-1" seen "2026-01-01T00:10:00Z"
            (in_store uncertain)
          ≡ (thrown "operation not found", in_store uncertain))
    × ((op : Journal) (e : String)
        → seen.operation_id ≡ "op-1"
        → seen.deployment_id ≡ "dep-1"
        → get "op-1" (in_store uncertain).store ≡ some op
        → resolve_inconclusive clock op seen "2026-01-01T00:10:00Z" ≡ thrown e
        → resolve_deployment_operation clock "op-1" "dep-1" seen "2026-01-01T00:10:00Z"
            (in_store uncertain)
          ≡ (thrown e, in_store uncertain))
unfolding get
resolve_deployment_example =
    resolve_deployment_lem clock "op-1" "dep-1" seen "2026-01-01T00:10:00Z" (in_store uncertain)
