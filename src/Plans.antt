-- ===== src/Plans.antt =====
-- packages/control-plane/src/application/ports.ts, LaunchPlanRepository: the launch plans by their
-- identifiers, in the order in which they were first saved.
pub mod Latest
use agx.Prelude.{
  ℕ, String, Option, none, some, Bool, true, false, not, ◌&&◌, ◌||◌, List, [], ◌∷◌, StrictEq,
  nat_eq, string_eq, ◌==◌, if◌then◌else◌, ltb,
}
use agx.Prelude.Dict.{Dict, get, put}
use agx.Prelude.Text.{text_before}
use agx.Client.{ClientId}
use agx.Activation.{LaunchPhase, LaunchPlan}

abbrev pub Plans : Type 0
Plans = Dict LaunchPlan

abbrev pub phase_tag : LaunchPhase → ℕ
phase_tag LaunchPhase.prepared = 0
phase_tag LaunchPhase.awaiting_confirmation = 1
phase_tag LaunchPhase.applying = 2
phase_tag LaunchPhase.observing = 3
phase_tag LaunchPhase.succeeded = 4
phase_tag LaunchPhase.degraded = 5
phase_tag LaunchPhase.failed = 6
phase_tag LaunchPhase.cancelled = 7
phase_tag LaunchPhase.requires_restart = 8
phase_tag LaunchPhase.incomplete = 9

abbrev pub same_phase : LaunchPhase → LaunchPhase → Bool
same_phase a b = phase_tag a == phase_tag b

abbrev pub client_tag : ClientId → ℕ
client_tag ClientId.omp = 0
client_tag ClientId.claude_code = 1
client_tag ClientId.codex_cli = 2

unfoldable pub save : LaunchPlan → Plans → Plans
save plan m = put plan.plan_id plan m

-- what a transition may have changed of the stored plan
abbrev pub update_plan : LaunchPlan → LaunchPlan → LaunchPlan
update_plan stored plan = record stored {
  phase = plan.phase;
  confirmed_at = plan.confirmed_at;
  failure_reason = plan.failure_reason;
  observed_outcome = plan.observed_outcome;
}

save_found : Option LaunchPlan → LaunchPlan → LaunchPhase → Plans → Bool × Plans
save_found none plan expected m = (false, m)
save_found (some stored) plan expected m =
    if same_phase stored.phase expected
    then (true, put plan.plan_id (update_plan stored plan) m)
    else (false, m)

unfoldable pub save_if_phase : LaunchPlan → LaunchPhase → Plans → Bool × Plans
unfolding save_found
save_if_phase plan expected m = save_found (get plan.plan_id m) plan expected m

unfoldable pub find_by_id : String → Plans → Option LaunchPlan
find_by_id id m = get id m

newer : Option LaunchPlan → LaunchPlan → Option LaunchPlan
newer none plan = some plan
newer (some best) plan =
    if text_before plan.created_at best.created_at then some best else some plan

latest : Option LaunchPlan → ClientId → Plans → Option LaunchPlan
unfolding newer
latest best client [] = best
latest best client ((id, plan) ∷ m) =
    latest (if client_tag plan.client == client_tag client then newer best plan else best) client m

-- the plan of the client that was created last, the later row of two created at the same time
unfoldable pub find_active_for_client : ClientId → Plans → Option LaunchPlan
unfolding latest
find_active_for_client client m = latest none client m
