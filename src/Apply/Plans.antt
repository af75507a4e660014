-- ===== src/Apply/Plans.antt =====
-- deployment-apply.ts: what a run of the plan does to the steps, by its outcome.
use agx.Prelude.{
  String, ◌≡◌, refl, sym, ap, subst, ◌∙◌, none, some, true, false, List, [], ◌∷◌, ◌++◌, arith, All,
  Bool-cases, inl, inr, map, ◌⊎◌,
}
use agx.Journal.{Step, StepPhase, is_pending}
use agx.Journal.Numbering.{planned}
use agx.Journal.Front.{AllSettled}
use agx.Apply.{FailPhase, step_phase}
use agx.Apply.Remote.{Targets, Ports}
use agx.Apply.Spec.{Verdict, done, failed, settled, try_step, run_plan}

abbrev pub AllSucceeded : List Step → Type 0
AllSucceeded = All (λ s. s.phase ≡ StepPhase.succeeded)

-- Nothing is left open but what is pending.
abbrev pub AllFresh : List Step → Type 0
AllFresh = All (λ s. (s.phase ≡ StepPhase.succeeded) ⊎ (s.phase ≡ StepPhase.pending))

-- The steps before the failed one succeeded, it has the phase of its failure and was pending, and
-- the steps after it are untouched.
pub record FailedAt (phase : FailPhase) (steps steps' : List Step) : Type 0 where
  pub before : List Step
  pub tried : Step
  pub stopped : Step
  pub after : List Step
  pub split : steps' ≡ before ++ stopped ∷ after
  pub succeeded : AllSucceeded before
  pub failed_phase : stopped.phase ≡ step_phase phase
  pub same_step : planned stopped ≡ planned tried
  pub was_pending : is_pending tried ≡ true
  pub earlier : List Step
  pub origin : steps ≡ earlier ++ tried ∷ after

module _ {W R P : Type 0} (targets : Targets R P) (ports : Ports W R P) where
  pub run_plan-nil : (w : W) → run_plan targets ports [] w ≡ ([], none, w)
  unfolding run_plan
  run_plan-nil w = refl

  pub run_plan-skip :
      (p : Step) (rest : List Step) (w : W)
      → is_pending p ≡ false
      → run_plan targets ports (p ∷ rest) w
        ≡ (let (steps, failure, w') = run_plan targets ports rest w in (p ∷ steps, failure, w'))
  unfolding run_plan
  run_plan-skip p rest w e = ground arith

  pub run_plan-done :
      (p : Step) (rest : List Step) (w w' : W)
      → is_pending p ≡ true
      → try_step targets ports p w ≡ (done, w')
      → run_plan targets ports (p ∷ rest) w ≡ (
          let (steps, failure, w'') = run_plan targets ports rest w' in
          (settled p done ∷ steps, failure, w''))
  unfolding run_plan
  run_plan-done p rest w w' e d = ground arith

  pub run_plan-failed :
      (p : Step) (rest : List Step) (w w' : W) (phase : FailPhase) (reason : String)
      → is_pending p ≡ true
      → try_step targets ports p w ≡ (failed phase reason, w')
      → run_plan targets ports (p ∷ rest) w
        ≡ (settled p (failed phase reason) ∷ rest, some phase, w')
  unfolding run_plan
  run_plan-failed p rest w w' phase reason e d = ground arith

  pub run_plan-planned :
      (steps : List Step) (w : W)
      → map planned (run_plan targets ports steps w).0 ≡ map planned steps
  unfolding run_plan
  run_plan-planned [] w = refl
  run_plan-planned (s ∷ steps) w =
      ground
        (arith, run_plan-planned steps w, run_plan-planned steps (try_step targets ports s w).1)

  pub run_plan-AllSucceeded :
      (steps : List Step) (w : W)
      → AllFresh steps
      → (run_plan targets ports steps w).1 ≡ none
      → AllSucceeded (run_plan targets ports steps w).0
  unfolding run_plan
  run_plan-AllSucceeded [] w h e = tt
  run_plan-AllSucceeded (s ∷ steps) w (f, h) e = ground (
    arith,
    run_plan-AllSucceeded steps w h,
    run_plan-AllSucceeded steps (try_step targets ports s w).1 h,
  )

  -- Settled steps are passed over, with no remote call.
  pub run_plan-settled :
      (before rest : List Step) (w : W)
      → AllSettled before
      → run_plan targets ports (before ++ rest) w ≡ (
          let (steps, failure, w') = run_plan targets ports rest w in
          (before ++ steps, failure, w'))
  unfolding run_plan
  run_plan-settled [] rest w h = refl
  run_plan-settled (s ∷ before) rest w (e, h) = ground (arith, run_plan-settled before rest w h)

  FailedAt-cons :
      (phase : FailPhase) (s s' : Step) (steps steps' : List Step)
      → s'.phase ≡ StepPhase.succeeded
      → FailedAt phase steps steps'
      → FailedAt phase (s ∷ steps) (s' ∷ steps')
  FailedAt-cons phase s s' steps steps' e f = record {
    before = s' ∷ f.before;
    tried = f.tried;
    stopped = f.stopped;
    after = f.after;
    split = ap (λ l. s' ∷ l) f.split;
    succeeded = (e, f.succeeded);
    failed_phase = f.failed_phase;
    same_step = f.same_step;
    was_pending = f.was_pending;
    earlier = s ∷ f.earlier;
    origin = ap (λ l. s ∷ l) f.origin;
  }

  pending-FailedAt :
      (s : Step) (steps : List Step) (w : W) (phase : FailPhase)
      → is_pending s ≡ true
      → ((w' : W)
          → (run_plan targets ports steps w').1 ≡ some phase
          → FailedAt phase steps (run_plan targets ports steps w').0)
      → (run_plan targets ports (s ∷ steps) w).1 ≡ some phase
      → (v : Verdict × W) → try_step targets ports s w ≡ v
      → FailedAt phase (s ∷ steps) (run_plan targets ports (s ∷ steps) w).0
  pending-FailedAt s steps w phase pending later e (done, w') tried =
      let eq = run_plan-done s steps w w' pending tried in
      let f = later w' (ap (λ t. t.1) (sym eq) ∙ e) in
      subst (λ t. FailedAt phase (s ∷ steps) t.0) (sym eq)
        (FailedAt-cons phase s (settled s done) steps _ refl f)
  pending-FailedAt s steps w phase pending later e (failed phase' reason, w') tried =
      let eq = run_plan-failed s steps w w' phase' reason pending tried in
      let hit : some phase' ≡ some phase = ap (λ t. t.1) (sym eq) ∙ e in
      let same : phase' ≡ phase = cc in
      subst (λ t. FailedAt phase (s ∷ steps) t.0) (sym eq)
        (record {
          before = [];
          tried = s;
          stopped = settled s (failed phase' reason);
          after = steps;
          split = refl;
          succeeded = tt;
          failed_phase = ap step_phase same;
          same_step = refl;
          was_pending = pending;
          earlier = [];
          origin = refl;
        })

  pub run_plan-FailedAt :
      (steps : List Step) (w : W) (phase : FailPhase)
      → AllFresh steps
      → (run_plan targets ports steps w).1 ≡ some phase
      → FailedAt phase steps (run_plan targets ports steps w).0
  unfolding run_plan
  run_plan-FailedAt [] w phase h e = absurd (cc)
  run_plan-FailedAt (s ∷ steps) w phase (f, h) e = elim (Bool-cases (is_pending s)) [
    | inl pending ↦
        pending-FailedAt s steps w phase pending (λ w'. run_plan-FailedAt steps w' phase h) e
          (try_step targets ports s w) refl
    | inr settled ↦
        let eq = run_plan-skip s steps w settled in
        let later = run_plan-FailedAt steps w phase h (ap (λ t. t.1) (sym eq) ∙ e) in
        subst (λ t. FailedAt phase (s ∷ steps) t.0) (sym eq)
          (FailedAt-cons phase s s steps _ (ground arith) later)
  ]
