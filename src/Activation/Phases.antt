-- ===== src/Activation/Phases.antt =====
-- activation.ts, transitionLaunchPlan: the phases and what one accepted event does.
use agx.Prelude.{
  ℕ, ◌<◌, ◌≤◌, ◌≡◌, ◌↔◌, refl, subst, none, some, true, false, string_eq, arith, eq_iff, text-eq,
  ◌⊎◌, inl, inr,
}
use agx.Prelude.Checked.{Checked, ok, refused}
use agx.Activation.{
  LaunchPhase, ObservedOutcome, outcome_phase, is_terminal_phase, ConfirmationToken,
  LaunchPlanEvent, prepared_ok, prepared_failed, confirmed, rejected, process_started, apply_failed,
  observed, switch_requested, target_requires_restart, LaunchPlan, is_awaiting,
  validate_confirmation_token, transition_launch_plan, transition_at, confirm_checked,
  observed_plan, with_reason, switched,
}

-- The state diagram: the phases that follow a phase.
pub data Edge : LaunchPhase → LaunchPhase → Type 0 where
  prepares : Edge LaunchPhase.prepared LaunchPhase.awaiting_confirmation
  misprepares : Edge LaunchPhase.prepared LaunchPhase.failed
  attaches : Edge LaunchPhase.prepared LaunchPhase.requires_restart
  confirms : Edge LaunchPhase.awaiting_confirmation LaunchPhase.applying
  rejects : Edge LaunchPhase.awaiting_confirmation LaunchPhase.cancelled
  starts : Edge LaunchPhase.applying LaunchPhase.observing
  misapplies : Edge LaunchPhase.applying LaunchPhase.failed
  observes : (o : ObservedOutcome) → Edge LaunchPhase.observing (outcome_phase o)
  switches :
      (o : ObservedOutcome)
      → ((o ≡ ObservedOutcome.succeeded) ⊎ (o ≡ ObservedOutcome.degraded))
      → Edge (outcome_phase o) LaunchPhase.requires_restart

-- What no event changes.
pub record SamePlan (p p' : LaunchPlan) : Type 0 where
  pub plan_id : p'.plan_id ≡ p.plan_id
  pub operation_id : p'.operation_id ≡ p.operation_id
  pub revision_id : p'.revision_id ≡ p.revision_id
  pub client : p'.client ≡ p.client
  pub plan_hash : p'.plan_hash ≡ p.plan_hash
  pub created_at : p'.created_at ≡ p.created_at

abbrev pub Matches : ConfirmationToken → LaunchPlan → Type 0
Matches token plan =
    (token.plan_id ≡ plan.plan_id)
    × (token.revision_id ≡ plan.revision_id)
    × (token.plan_hash ≡ plan.plan_hash)

-- A token is valid exactly when the plan awaits its confirmation and the token names its
-- identifier, its revision and its hash.
pub validate-Matches :
    (plan : LaunchPlan) (token : ConfirmationToken)
    → (validate_confirmation_token plan token ≡ ok tt)
      ↔ ((plan.phase ≡ LaunchPhase.awaiting_confirmation) × Matches token plan)
unfolding validate_confirmation_token is_awaiting
validate-Matches plan token = (
  (λ e. (
    ground arith,
    (
      ground (arith, eq_iff token.plan_id plan.plan_id),
      ground (arith, eq_iff token.revision_id plan.revision_id),
      ground (arith, eq_iff token.plan_hash plan.plan_hash),
    ),
  )),
  (λ (e, (a, b, c)). ground (
    arith,
    text-eq token.plan_id plan.plan_id,
    text-eq token.revision_id plan.revision_id,
    text-eq token.plan_hash plan.plan_hash,
  )),
)

pub transition-SamePlan :
    (p p' : LaunchPlan) (event : LaunchPlanEvent)
    → transition_launch_plan p event ≡ ok p'
    → SamePlan p p'
unfolding transition_launch_plan
transition-SamePlan p p' event e = record {
  plan_id = ground arith;
  operation_id = ground arith;
  revision_id = ground arith;
  client = ground arith;
  plan_hash = ground arith;
  created_at = ground arith;
}

pub ok-inj {ℓ} : {A : Type ℓ} {a b : A} → ok a ≡ ok b → a ≡ b
ok-inj e = cc

reach : (a : LaunchPhase) (q q' : LaunchPlan) → ok q ≡ ok q' → Edge a q.phase → Edge a q'.phase
reach a q q' e edge = subst (λ (r : LaunchPlan). Edge a r.phase) (ok-inj e) edge

confirm_checked-Edge :
    (v : Checked {0} Unit) (p p' : LaunchPlan) (token : ConfirmationToken)
    → confirm_checked v p token ≡ ok p'
    → Edge LaunchPhase.awaiting_confirmation p'.phase
unfolding confirm_checked
confirm_checked-Edge (ok u) p p' token e = reach _ _ p' e confirms
confirm_checked-Edge (refused reason) p p' token e = absurd (cc)

transition_at-Edge :
    (phase : LaunchPhase) (p p' : LaunchPlan) (event : LaunchPlanEvent)
    → transition_at phase p event ≡ ok p'
    → Edge phase p'.phase
unfolding transition_at confirm_checked observed_plan with_reason switched
transition_at-Edge LaunchPhase.prepared p p' prepared_ok e = reach _ _ p' e prepares
transition_at-Edge LaunchPhase.prepared p p' (prepared_failed reason) e = reach _ _ p' e misprepares
transition_at-Edge LaunchPhase.prepared p p' target_requires_restart e = reach _ _ p' e attaches
transition_at-Edge LaunchPhase.awaiting_confirmation p p' (confirmed token) e =
    confirm_checked-Edge (validate_confirmation_token p token) p p' token e
transition_at-Edge LaunchPhase.awaiting_confirmation p p' rejected e = reach _ _ p' e rejects
transition_at-Edge LaunchPhase.applying p p' process_started e = reach _ _ p' e starts
transition_at-Edge LaunchPhase.applying p p' (apply_failed reason) e = reach _ _ p' e misapplies
transition_at-Edge LaunchPhase.observing p p' (observed o none) e = reach _ _ p' e (observes o)
transition_at-Edge LaunchPhase.observing p p' (observed o (some reason)) e =
    reach _ _ p' e (observes o)
transition_at-Edge LaunchPhase.succeeded p p' switch_requested e =
    reach _ _ p' e (switches ObservedOutcome.succeeded (inl refl))
transition_at-Edge LaunchPhase.degraded p p' switch_requested e =
    reach _ _ p' e (switches ObservedOutcome.degraded (inr refl))
transition_at-Edge _ p p' event e = absurd (cc)

-- How far along the diagram a phase is.
abbrev pub rank : LaunchPhase → ℕ
rank LaunchPhase.prepared = 0
rank LaunchPhase.awaiting_confirmation = 1
rank LaunchPhase.applying = 2
rank LaunchPhase.observing = 3
rank LaunchPhase.succeeded = 4
rank LaunchPhase.degraded = 4
rank _ = 5

pub rank-Edge : {a b : LaunchPhase} → Edge a b → rank a < rank b
rank-Edge prepares = omega arith
rank-Edge misprepares = omega arith
rank-Edge attaches = omega arith
rank-Edge confirms = omega arith
rank-Edge rejects = omega arith
rank-Edge starts = omega arith
rank-Edge misapplies = omega arith
rank-Edge (observes ObservedOutcome.succeeded) = omega arith
rank-Edge (observes ObservedOutcome.degraded) = omega arith
rank-Edge (observes ObservedOutcome.failed) = omega arith
rank-Edge (observes ObservedOutcome.incomplete) = omega arith
rank-Edge (switches o (inl e)) = ground arith
rank-Edge (switches o (inr e)) = ground arith

pub rank-bound : (a : LaunchPhase) → rank a ≤ 5
rank-bound a = ground arith

-- An accepted event follows an arrow of the state diagram and keeps what the plan is about.
pub transition-Edge :
    (p p' : LaunchPlan) (event : LaunchPlanEvent)
    → transition_launch_plan p event ≡ ok p'
    → Edge p.phase p'.phase × SamePlan p p'
unfolding transition_launch_plan
transition-Edge p p' event e =
    (transition_at-Edge p.phase p p' event e, transition-SamePlan p p' event e)

-- In a terminal phase one event is accepted at most: a switch, after a success or a degraded run,
-- to the phase that accepts none. In any other phase some event is accepted.
pub terminal_lem :
    (p : LaunchPlan)
    → (is_terminal_phase p.phase ≡ true
        → (event : LaunchPlanEvent) (p' : LaunchPlan) → transition_launch_plan p event ≡ ok p'
        → (event ≡ switch_requested)
          × ((p.phase ≡ LaunchPhase.succeeded) ⊎ (p.phase ≡ LaunchPhase.degraded))
          × (p'.phase ≡ LaunchPhase.requires_restart))
      × (is_terminal_phase p.phase ≡ false
          → (event : LaunchPlanEvent) × (p' : LaunchPlan) × (transition_launch_plan p event
              ≡ ok p'))
unfolding is_terminal_phase transition_launch_plan
terminal_lem p =
    ((λ t event p' e. (ground arith, ground arith, ground arith)), (λ t. some_event p t))
  where
    some_event :
        (p : LaunchPlan)
        → is_terminal_phase p.phase ≡ false
        → (event : LaunchPlanEvent) × (p' : LaunchPlan) × (transition_launch_plan p event ≡ ok p')
    some_event p t =
        elim p.phase
            as (λ a.
              is_terminal_phase a ≡ false
              → (event : LaunchPlanEvent) × (p' : LaunchPlan) × (transition_at a p event ≡ ok p')) [
                | LaunchPhase.prepared ↦ λ t. (prepared_ok, _, refl)
                | LaunchPhase.awaiting_confirmation ↦ λ t. (rejected, _, refl)
                | LaunchPhase.applying ↦ λ t. (process_started, _, refl)
                | LaunchPhase.observing ↦ λ t. (observed ObservedOutcome.succeeded none, _, refl)
                | _ ↦ λ t. absurd (cc)
              ]
          t
