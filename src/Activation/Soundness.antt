-- ===== src/Activation/Soundness.antt =====
-- activation.ts: what the fields of a plan say in each phase, for every plan that can come about.
use agx.Prelude.{
  String, ◌≡◌, refl, sym, ap, ◌∙◌, Bool, true, false, not, ◌&&◌, ◌||◌, List, [], ◌∷◌, ◌++◌, arith,
  eq_iff, string_eq,
}
use agx.Prelude.Checked.{ok}
use agx.Facts.{Fact, known, is_known}
use agx.Activation.{
  LaunchPhase, ObservedOutcome, ConfirmationToken, LaunchPlanEvent, confirmed, LaunchPlan,
  CreateLaunchPlanParams, create_launch_plan, transition_launch_plan, validate_confirmation_token,
}
use agx.Activation.Phases.{SamePlan, Matches, transition-SamePlan}
use agx.Activation.History.{Runs, here, next, is_confirmed}

abbrev pub saw : ObservedOutcome → Fact ObservedOutcome → Bool
saw ObservedOutcome.succeeded (known ObservedOutcome.succeeded) = true
saw ObservedOutcome.degraded (known ObservedOutcome.degraded) = true
saw ObservedOutcome.failed (known ObservedOutcome.failed) = true
saw ObservedOutcome.incomplete (known ObservedOutcome.incomplete) = true
saw _ _ = false

-- What a phase says of the three facts of a plan: confirmed, with a reason, observed.
abbrev pub says : LaunchPhase → Bool → Bool → Fact ObservedOutcome → Bool
says LaunchPhase.prepared c f o = not c && not f && not (is_known o)
says LaunchPhase.awaiting_confirmation c f o = not c && not f && not (is_known o)
says LaunchPhase.applying c f o = c && not f && not (is_known o)
says LaunchPhase.observing c f o = c && not f && not (is_known o)
says LaunchPhase.succeeded c f o = c && saw ObservedOutcome.succeeded o
says LaunchPhase.degraded c f o = c && saw ObservedOutcome.degraded o
says LaunchPhase.incomplete c f o = c && saw ObservedOutcome.incomplete o
says LaunchPhase.failed c f o = (f && not (is_known o)) || (c && saw ObservedOutcome.failed o)
says LaunchPhase.cancelled c f o = not c && f && not (is_known o)
says LaunchPhase.requires_restart c f o =
    f
    && ((not c && not (is_known o))
        || (c && (saw ObservedOutcome.succeeded o || saw ObservedOutcome.degraded o)))

abbrev pub consistent : LaunchPlan → Bool
consistent p = says p.phase (is_known p.confirmed_at) (is_known p.failure_reason) p.observed_outcome

consistent-transition :
    (p p' : LaunchPlan) (event : LaunchPlanEvent)
    → consistent p ≡ true
    → transition_launch_plan p event ≡ ok p'
    → consistent p' ≡ true
unfolding transition_launch_plan
consistent-transition p p' event c e = ground arith

-- Among the events there is a confirmation of this plan, issued at that time.
pub record ConfirmedAt (t : String) (events : List LaunchPlanEvent) (q : LaunchPlan) : Type 0 where
  pub token : ConfirmationToken
  pub later : List LaunchPlanEvent
  pub earlier : List LaunchPlanEvent
  pub among : events ≡ later ++ confirmed token ∷ earlier
  pub same_plan : Matches token q
  pub at : token.issued_at ≡ t

unconfirmed_keeps :
    (q r : LaunchPlan) (event : LaunchPlanEvent)
    → is_confirmed event ≡ false
    → transition_launch_plan q event ≡ ok r
    → r.confirmed_at ≡ q.confirmed_at
unfolding transition_launch_plan
unconfirmed_keeps q r event n e = ground arith

pub confirmation_lem :
    (q r : LaunchPlan) (token : ConfirmationToken)
    → transition_launch_plan q (confirmed token) ≡ ok r
    → Matches token q
      × (r ≡ record q { phase = LaunchPhase.applying; confirmed_at = known token.issued_at })
unfolding transition_launch_plan validate_confirmation_token
confirmation_lem q r token e = (
  (
    ground (arith, eq_iff token.plan_id q.plan_id),
    ground (arith, eq_iff token.revision_id q.revision_id),
    ground (arith, eq_iff token.plan_hash q.plan_hash),
  ),
  ground arith,
)

Matches-SamePlan :
    (token : ConfirmationToken) (q r : LaunchPlan)
    → Matches token q
    → SamePlan q r
    → Matches token r
Matches-SamePlan token q r (a, b, c) same =
    (a ∙ sym same.plan_id, b ∙ sym same.revision_id, c ∙ sym same.plan_hash)

later_event :
    (t : String) (events : List LaunchPlanEvent) (event : LaunchPlanEvent) (q r : LaunchPlan)
    → SamePlan q r
    → ConfirmedAt t events q
    → ConfirmedAt t (event ∷ events) r
later_event t events event q r same c = record {
  token = c.token;
  later = event ∷ c.later;
  earlier = c.earlier;
  among = ap (λ l. event ∷ l) c.among;
  same_plan = Matches-SamePlan c.token q r c.same_plan same;
  at = c.at;
}

this_event :
    (t : String) (events : List LaunchPlanEvent) (token : ConfirmationToken) (q r : LaunchPlan)
    → transition_launch_plan q (confirmed token) ≡ ok r
    → r.confirmed_at ≡ known t
    → ConfirmedAt t (confirmed token ∷ events) r
this_event t events token q r e k = record {
  token = token;
  later = [];
  earlier = events;
  among = refl;
  same_plan =
      Matches-SamePlan token q r (confirmation_lem q r token e).0
        (transition-SamePlan q r (confirmed token) e);
  at = let s = (confirmation_lem q r token e).1 in cc;
}

ConfirmedAt-Runs :
    (t : String) {p q : LaunchPlan} {events : List LaunchPlanEvent}
    → is_known p.confirmed_at ≡ false
    → Runs p events q
    → q.confirmed_at ≡ known t
    → ConfirmedAt t events q
ConfirmedAt-Runs t n here k = absurd (ground arith)
ConfirmedAt-Runs t {p} {q = r} n (next {events = events} {q = q} (confirmed token) runs e) k =
    this_event t events token q r e k
ConfirmedAt-Runs t {p} {q = r} n (next {events = events} {q = q} event runs e) k =
    later_event t events event q r (transition-SamePlan q r event e)
      (ConfirmedAt-Runs t n runs (sym (unconfirmed_keeps q r event refl e) ∙ k))

consistent-Runs :
    {p q : LaunchPlan} {events : List LaunchPlanEvent}
    → consistent p ≡ true
    → Runs p events q
    → consistent q ≡ true
consistent-Runs c here = c
consistent-Runs {p} {q = r} c (next {q = q} event runs e) =
    consistent-transition q r event (consistent-Runs c runs) e

-- For every plan that comes about from a new one: its phase agrees with what is confirmed, recorded
-- as a reason and observed; and if it is confirmed at a time, a confirmation issued then, for this
-- plan, revision and hash, is among the events that it accepted.
pub Runs-sound :
    (params : CreateLaunchPlanParams) (events : List LaunchPlanEvent) (q : LaunchPlan)
    → Runs (create_launch_plan params) events q
    → (consistent q ≡ true) × ((t : String) → q.confirmed_at ≡ known t → ConfirmedAt t events q)
unfolding create_launch_plan
Runs-sound params events q runs =
    (consistent-Runs refl runs, (λ t k. ConfirmedAt-Runs t refl runs k))
