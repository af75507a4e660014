-- ===== src/Launch/Tests.antt =====
-- Launches in a world where every port answers, with the hour as the only thing that passes.
use agx.Prelude.{◌↔◌, ℕ, suc, String, ◌≡◌, ◌≢◌, refl, none, some, true, false, [], ◌∷◌, inl}
use agx.Prelude.Dict.{get, put}
use agx.Prelude.Outcome.{returned, thrown}
use agx.Prelude.Exec.{Exec}
use agx.Facts.{known}
use agx.Client.{ClientId, resolve_client_support}
use agx.Config.{StableConfigRevision, TriggerCategory, Availability}
use agx.Activation.{LaunchPhase, LaunchPlan, transition_launch_plan, validate_confirmation_token}
use agx.Activation.Tests.{awaiting, applying, succeeded}
use agx.Plans
use agx.Queries.{Lookup}
use agx.Launch.{
  confirm_read, prepare_launch_plan, request_config_switch, unsupported_client, save_if_current,
  save_or_throw,
}
use agx.Launch.World.{State, Ports, ProbeLevel, ExitCode}
use agx.Launch.Confirming.{confirm-once}
use agx.Launch.Preparing.{Answers, answered, switched_plan, prepare_lem, switch_lem}
use agx.Launch.Running.{launch_omp}
use agx.Launch.Running.Ending.{Ended, launch_omp-Ended}
use agx.Launch.Running.Undisturbed
use agx.Launch.Running.Undisturbed.{over, launch_omp_lem}

abbrev pub base : StableConfigRevision
base = record {
  config_name = "base";
  revision_id = "rev-1";
  default_marker = known true;
  scope_boundary = known "all";
  availability = known Availability.resolved;
  instructions = [];
  skills = [];
  mcp = [];
  hooks = [];
  plugins = [];
  trigger_category = TriggerCategory.new_scenario;
  evidence_ref = "evidence-1";
  supersedes_revision_id = none;
}

abbrev pub answer : {A : Type 0} → A → Exec (State ℕ) A
answer a s = (returned a, record s { world = suc s.world })

abbrev pub ports : Ports ℕ
ports = record {
  now = answer "2026-01-01T00:00:01.000Z";
  random_id = answer "0";
  find_revision = λ id. answer (Lookup.revision base);
  guards_writes = true;
  probe = answer (record { level = ProbeLevel.unsupported; reason = "" });
  write_context = λ c. answer "/tmp/context.json";
  on_spawning = answer tt;
  spawn = λ p. answer (record { exit_code = some ExitCode.zero; signal = none });
  detect_omp_version = answer (known "1.0");
  detect_claude_version = none;
}

abbrev pub holding : LaunchPlan → ℕ → State ℕ
holding plan n = record { plans = ("plan-1", plan) ∷ []; world = n }

stored_applying : get "plan-1" (holding applying 0).plans ≡ some applying
unfolding get
stored_applying = refl

stored_succeeded : get "plan-1" (holding succeeded 0).plans ≡ some succeeded
unfolding get
stored_succeeded = refl

confirms :
    confirm_read ports (some awaiting) "plan-1" (holding awaiting 0)
    ≡ (returned applying, holding applying 1)
unfolding confirm_read save_if_current get put transition_launch_plan validate_confirmation_token
    save_or_throw Plans.save_if_phase
confirms = refl

confirm-once_example :
    ((stored : LaunchPlan) × (get "plan-1" (holding applying 1).plans ≡ some stored)
      × (stored.phase ≡ LaunchPhase.applying))
    × ((other r' stored : LaunchPlan) (id' : String) (t t' : State ℕ)
        → other.plan_id ≡ "plan-1"
        → get "plan-1" t.plans ≡ some stored
        → stored.phase ≢ LaunchPhase.awaiting_confirmation
        → confirm_read ports (some other) id' t ≢ (returned r', t'))
confirm-once_example =
    confirm-once ports refl awaiting applying "plan-1" (holding awaiting 0) (holding applying 1)
      (λ s. refl) confirms

abbrev nothing_stored : State ℕ
nothing_stored = record { plans = []; world = 0 }

prepare_example :
    ((resolve_client_support ClientId.omp).supported ≡ false
      → prepare_launch_plan ports "rev-1" ClientId.omp nothing_stored ≡ (
        thrown (unsupported_client ClientId.omp (resolve_client_support ClientId.omp).reason),
        nothing_stored,
      ))
    × ((a : Answers ports "rev-1" nothing_stored)
        → (resolve_client_support ClientId.omp).supported ≡ true
        → prepare_launch_plan ports "rev-1" ClientId.omp nothing_stored ≡ (
          returned (answered ports "rev-1" ClientId.omp nothing_stored a),
          record a.s₄ {
            plans = Plans.save (answered ports "rev-1" ClientId.omp nothing_stored a) a.s₄.plans;
          },
        ))
    × (((resolve_client_support ClientId.omp).supported ≡ false)
        ↔ (ClientId.omp ≡ ClientId.codex_cli))
prepare_example = prepare_lem ports "rev-1" ClientId.omp nothing_stored

switch_example :
    let s₀ : State ℕ = record {
      plans = Plans.save (switched_plan succeeded) (("plan-1", succeeded) ∷ []);
      world = 0;
    } in
    ((resolve_client_support ClientId.codex_cli).supported ≡ false
      → request_config_switch ports "plan-1" "rev-2" ClientId.codex_cli (holding succeeded 0) ≡ (
        thrown (
            unsupported_client ClientId.codex_cli
              (resolve_client_support ClientId.codex_cli).reason),
        s₀,
      ))
    × ((a : Answers ports "rev-2" s₀)
        → (resolve_client_support ClientId.codex_cli).supported ≡ true
        → request_config_switch ports "plan-1" "rev-2" ClientId.codex_cli (holding succeeded 0) ≡ (
          returned (switched_plan succeeded, answered ports "rev-2" ClientId.codex_cli s₀ a),
          record a.s₄ {
            plans = Plans.save (answered ports "rev-2" ClientId.codex_cli s₀ a) a.s₄.plans;
          },
        ))
switch_example =
    switch_lem ports "plan-1" "rev-2" ClientId.codex_cli succeeded (holding succeeded 0)
      stored_succeeded (inl refl)

abbrev run : Undisturbed.Answers ports "/tmp/extension.js" [] "/tmp" applying (holding applying 0)
run = record {
  revision = base;
  probe = record { level = ProbeLevel.unsupported; reason = "" };
  time = "2026-01-01T00:00:01.000Z";
  path = "/tmp/context.json";
  result = record { exit_code = some ExitCode.zero; signal = none };
  s₁ = holding applying 1;
  s₂ = holding applying 2;
  s₃ = holding applying 3;
  s₄ = holding applying 4;
  s₅ = holding applying 5;
  s₆ = holding applying 6;
  looked = refl;
  probed = refl;
  level_known = refl;
  timed = refl;
  wrote = refl;
  announced = refl;
  spawned = refl;
  undisturbed = stored_applying;
}

launched :
    launch_omp ports "plan-1" "/tmp/extension.js" [] "/tmp" (holding applying 0)
    ≡ (returned succeeded, holding succeeded 6)
unfolding put
launched =
    launch_omp_lem ports "/tmp/extension.js" [] "/tmp" applying (holding applying 0) run refl refl
      stored_applying

launch_omp-Ended_example :
    (plan : LaunchPlan) × (get "plan-1" (holding applying 0).plans ≡ some plan)
    × (plan.phase ≡ LaunchPhase.applying)
    × Ended plan succeeded (holding succeeded 6)
launch_omp-Ended_example =
    launch_omp-Ended ports refl "plan-1" "/tmp/extension.js" [] "/tmp" (holding applying 0)
      (holding succeeded 6) succeeded launched
