-- ===== src/Launch/Confirming.antt =====
-- launch.ts, confirmLaunchPlan: a plan is confirmed once, whoever read it and when.
use agx.Prelude.{String, ◌≡◌, ◌≢◌, sym, ap, ap₂, subst, ◌∙◌, some, true, arith}
use agx.Prelude.Dict.{get}
use agx.Prelude.Outcome.{Outcome, returned}
use agx.Prelude.Exec.{Exec, >>=-eq-returned}
use agx.Prelude.Checked.{Checked, ok, refused}
use agx.Facts.{known}
use agx.Activation.{LaunchPhase, LaunchPlan, transition_launch_plan}
use agx.Activation.Soundness.{confirmation_lem}
use agx.Launch.{confirm_read, confirm_saved, own_token}
use agx.Launch.World.{State, Ports}
use agx.Launch.Writes.{Written, Written-stored, save_or_throw-Written}

some-inj : {A : Type 0} {a b : A} → some a ≡ some b → a ≡ b
some-inj e = cc

-- The clock is read without touching the plans.
abbrev pub KeepsPlans : {W A : Type 0} → Exec (State W) A → Type 0
KeepsPlans {W} {A} m = (s : State W) → (m s).1.plans ≡ s.plans

-- What a confirmation that returned has done.
pub record Confirmed {W : Type 0} (ports : Ports W) (plan r : LaunchPlan) (s s' : State W)
    : Type 0 where
  pub issued_at : String
  pub clock : State W
  pub ticked : ports.now s ≡ (returned issued_at, clock)
  pub was_awaiting : plan.phase ≡ LaunchPhase.awaiting_confirmation
  pub confirmed_plan :
      r ≡ record plan { phase = LaunchPhase.applying; confirmed_at = known issued_at }
  pub written : Written r plan.phase clock s'

confirmation_at :
    (plan r : LaunchPlan) (t : String)
    → transition_launch_plan plan (own_token plan t) ≡ ok r
    → (plan.phase ≡ LaunchPhase.awaiting_confirmation)
      × (r ≡ record plan { phase = LaunchPhase.applying; confirmed_at = known t })
unfolding transition_launch_plan
confirmation_at plan r t e = (ground arith, (confirmation_lem plan r _ e).1)

module _ {W : Type 0} (ports : Ports W) (guarded : ports.guards_writes ≡ true) where
  confirm_saved-Written :
      (c : Checked LaunchPlan) (plan r : LaunchPlan) (id : String) (s s' : State W)
      → confirm_saved ports c plan id s ≡ (returned r, s')
      → (c ≡ ok r) × Written r plan.phase s s'
  unfolding confirm_saved
  confirm_saved-Written (refused reason) plan r id s s' e = absurd (cc)
  confirm_saved-Written (ok plan') plan r id s s' e =
      let (same, written) = save_or_throw-Written ports plan' plan.phase _ r s s' guarded e in
      (ap ok (sym same), subst (λ q. Written q plan.phase s s') (sym same) written)

  pub confirm_read-Confirmed :
      (plan r : LaunchPlan) (id : String) (s s' : State W)
      → confirm_read ports (some plan) id s ≡ (returned r, s')
      → Confirmed ports plan r s s'
  unfolding confirm_read
  confirm_read-Confirmed plan r id s s' e =
      let (t, clock, ticked, rest) = >>=-eq-returned ports.now _ e in
      let (accepted, written) = confirm_saved-Written _ plan r id clock s' rest in
      let (from, effect) = confirmation_at plan r t accepted in
      record {
        issued_at = t;
        clock = clock;
        ticked = ticked;
        was_awaiting = from;
        confirmed_plan = effect;
        written = written;
      }

  -- A confirmation that returned is the only one: while the stored plan is not awaiting a
  -- confirmation any more, as it leaves it, no call confirms that plan, not even one that has read
  -- it before. Writes are guarded by the phase, and reading the clock leaves the plans alone.
  pub confirm-once :
      (plan r : LaunchPlan) (id : String) (s s' : State W)
      → KeepsPlans ports.now
      → confirm_read ports (some plan) id s ≡ (returned r, s')
      → ((stored : LaunchPlan) × (get plan.plan_id s'.plans ≡ some stored)
          × (stored.phase ≡ LaunchPhase.applying))
        × ((other r' stored : LaunchPlan) (id' : String) (t t' : State W)
            → other.plan_id ≡ plan.plan_id
            → get plan.plan_id t.plans ≡ some stored
            → stored.phase ≢ LaunchPhase.awaiting_confirmation
            → confirm_read ports (some other) id' t ≢ (returned r', t'))
  confirm-once plan r id s s' quiet e = (
    (let c = confirm_read-Confirmed plan r id s s' e in
        let (stored, found, phase) = Written-stored ports r plan.phase c.clock s' c.written in
        let same : r.plan_id ≡ plan.plan_id = ap (λ (p : LaunchPlan). p.plan_id) c.confirmed_plan in
        (
          stored,
          ap (λ i. get i s'.plans) (sym same) ∙ found,
          phase ∙ ap (λ (p : LaunchPlan). p.phase) c.confirmed_plan,
        )),
    (λ other r' stored id' t t' same found phase again.
        let d = confirm_read-Confirmed other r' id' t t' again in
        let unmoved : d.clock.plans ≡ t.plans =
          ap (λ (x : Outcome String × State W). x.1.plans) (sym d.ticked) ∙ quiet t in
        let named : r'.plan_id ≡ plan.plan_id =
          ap (λ (p : LaunchPlan). p.plan_id) d.confirmed_plan ∙ same in
        let seen = ap₂ get (sym named) (sym unmoved) ∙ d.written.is_stored in
        let one : some stored ≡ some d.written.stored = sym found ∙ seen in
        let awaiting = d.written.in_phase ∙ d.was_awaiting in
        phase (ap (λ (p : LaunchPlan). p.phase) (some-inj one) ∙ awaiting)),
  )
