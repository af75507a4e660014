-- ===== src/Activation/History.antt =====
-- activation.ts, transitionLaunchPlan: what every sequence of accepted events keeps.
use agx.Prelude.{
  ℕ, ◌+◌, ◌≤◌, ◌≡◌, refl, ◌∙◌, Bool, true, false, List, [], ◌∷◌, length, arith, if◌then◌else◌,
}
use agx.Prelude.Checked.{ok}
use agx.Activation.{LaunchPhase, LaunchPlanEvent, confirmed, LaunchPlan, transition_launch_plan}
use agx.Activation.Phases.{SamePlan, rank, rank-Edge, rank-bound, transition-Edge}

-- The accepted events that lead from a plan to another one, the latest first.
pub data Runs (p : LaunchPlan) : List LaunchPlanEvent → LaunchPlan → Type 0 where
  here : Runs p [] p
  next :
      {events : List LaunchPlanEvent} {q r : LaunchPlan} (event : LaunchPlanEvent)
      → Runs p events q
      → transition_launch_plan q event ≡ ok r
      → Runs p (event ∷ events) r

abbrev pub is_confirmed : LaunchPlanEvent → Bool
is_confirmed (confirmed token) = true
is_confirmed _ = false

abbrev pub confirmations : List LaunchPlanEvent → ℕ
confirmations [] = 0
confirmations (event ∷ events) = (if is_confirmed event then 1 else 0) + confirmations events

pub SamePlan-trans : (p q r : LaunchPlan) → SamePlan p q → SamePlan q r → SamePlan p r
SamePlan-trans p q r a b = record {
  plan_id = b.plan_id ∙ a.plan_id;
  operation_id = b.operation_id ∙ a.operation_id;
  revision_id = b.revision_id ∙ a.revision_id;
  client = b.client ∙ a.client;
  plan_hash = b.plan_hash ∙ a.plan_hash;
  created_at = b.created_at ∙ a.created_at;
}

SamePlan-refl : (p : LaunchPlan) → SamePlan p p
SamePlan-refl p = record {
  plan_id = refl;
  operation_id = refl;
  revision_id = refl;
  client = refl;
  plan_hash = refl;
  created_at = refl;
}

pub Runs-SamePlan :
    {p q : LaunchPlan} {events : List LaunchPlanEvent} → Runs p events q → SamePlan p q
Runs-SamePlan {p} here = SamePlan-refl p
Runs-SamePlan {p} {q = r} (next {q = q} event runs e) =
    SamePlan-trans p q r (Runs-SamePlan runs) (transition-Edge q r event e).1

Runs-rank :
    {p q : LaunchPlan} {events : List LaunchPlanEvent}
    → Runs p events q
    → rank p.phase + length events ≤ rank q.phase
Runs-rank here = omega arith
Runs-rank {p} {q = r} (next {q = q} event runs e) =
    omega (arith, Runs-rank runs, rank-Edge (transition-Edge q r event e).0)

-- One confirmation has taken place in the phases after it.
abbrev pub is_past : LaunchPhase → ℕ
is_past LaunchPhase.prepared = 0
is_past LaunchPhase.awaiting_confirmation = 0
is_past _ = 1

confirmation_once :
    (p p' : LaunchPlan) (event : LaunchPlanEvent)
    → transition_launch_plan p event ≡ ok p'
    → is_past p.phase + (if is_confirmed event then 1 else 0) ≤ is_past p'.phase
unfolding transition_launch_plan
confirmation_once p p' event e = ground arith

Runs-confirmations :
    {p q : LaunchPlan} {events : List LaunchPlanEvent}
    → Runs p events q
    → is_past p.phase + confirmations events ≤ is_past q.phase
Runs-confirmations here = omega arith
Runs-confirmations {p} {q = r} (next {q = q} event runs e) =
    omega (arith, Runs-confirmations runs, confirmation_once q r event e)

is_past-bound : (a : LaunchPhase) → is_past a ≤ 1
is_past-bound a = ground arith

-- A plan accepts five events at most in its life, at most one of them a confirmation, and none
-- changes its identifiers, its client, its hash or its time of creation.
pub Runs-bound :
    {p q : LaunchPlan} {events : List LaunchPlanEvent}
    → Runs p events q
    → (length events ≤ 5) × (confirmations events ≤ 1) × SamePlan p q
Runs-bound {p} {q} {events} runs = (
  omega (arith, Runs-rank runs, rank-bound q.phase),
  omega (arith, Runs-confirmations runs, is_past-bound q.phase),
  Runs-SamePlan runs,
)
