-- ===== src/Apply/Refinement.antt =====
-- deployment-apply.ts: the loop over the journal's steps refines the specification.
use agx.Prelude.{
  String, ◌≡◌, refl, sym, ap, subst, ◌∙◌, Option, none, some, true, false, List, [], ◌∷◌, ◌++◌,
  arith, All, All-append, Bool-cases, inl, inr, map,
}
use mathlib.Core.List.{append_assoc, map-append}
use agx.Prelude.Dict.{put, put-put, get-put_self}
use agx.Prelude.Outcome.{Outcome, returned, thrown}
use agx.Prelude.Exec.{pure, continue}
use agx.Journal.{Step, JournalPhase, Journal, is_pending}
use agx.Journal.Reasons.{reason_ok}
use agx.Journal.Append.{settle}
use agx.Journal.Run.{finish_journal, FinishPhase}
use agx.Journal.Numbering.{planned, NumberedFrom-of_planned}
use agx.JournalStore
use agx.JournalStore.Keeping.{edit_lem}
use agx.Apply.{
  State, Progress, go_on, stop, FailPhase, step_phase, apply_kind, result, ApplyKind, ApplyResult,
  run_steps, apply_step, is_active,
}
use agx.Apply.Remote.{Targets, Ports}
use agx.Apply.Spec.{Verdict, done, failed, settled, try_step, run_plan}
use agx.Apply.Plans.{run_plan-nil, run_plan-skip, run_plan-done, run_plan-failed}
use agx.Apply.Rounds.{journalled, apply_step_lem}
use agx.Apply.Reasons.{WellReasoned, try_step-WellReasoned}
use agx.Apply.Journalling.{AtFront, append_success_lem, append_failure_lem, after}

-- The operation as the run leaves it.
abbrev pub closed : Option FailPhase → Journal → Journal
closed none op = record op { phase = JournalPhase.succeeded; next_action = "none" }
closed (some phase) op = settle (step_phase phase) op

abbrev pub closing_kind : Option FailPhase → ApplyKind
closing_kind none = ApplyKind.succeeded
closing_kind (some phase) = apply_kind phase

abbrev pub AllReasoned : List Step → Type 0
AllReasoned = All (λ s. reason_ok s.reason ≡ true)

module _ {W : Type 0} where
  abbrev pub ended_with :
      State W → Journal → Option FailPhase → W → List Step → Outcome ApplyResult × State W
  ended_with s op failure w steps =
      let op' = closed failure (record op { steps = steps }) in
      (
        returned (result (closing_kind failure) (some op') none),
        record { store = put op.operation_id op' s.store; world = w },
      )

  -- The result, the stored operation and the world that a run of the plan leads to.
  abbrev pub ended :
      State W
      → Journal
      → List Step
      → List Step × Option FailPhase × W
      → Outcome ApplyResult × State W
  ended s op before (steps, failure, w) = ended_with s op failure w (before ++ steps)

  ended-shift :
      (s : State W) (op : Journal) (before : List Step) (x : Step)
      (t : List Step × Option FailPhase × W)
      → ended s op (before ++ x ∷ []) t ≡ ended s op before (x ∷ t.0, t.1, t.2)
  ended-shift s op before x t = ap (ended_with s op t.1 t.2) (append_assoc before (x ∷ []) t.0)

  -- Only the last write to the operation's entry counts.
  pub ended-over :
      (s : State W) (op r : Journal) (before : List Step) (w : W)
      (t : List Step × Option FailPhase × W)
      → ended (record { store = put op.operation_id r s.store; world = w }) op before t
        ≡ ended s op before t
  ended-over s op r before w t =
      let op' = closed t.1 (record op { steps = before ++ t.0 }) in
      ap
        (λ m.
          (returned (result (closing_kind t.1) (some op') none), record { store = m; world = t.2 }))
        (put-put op.operation_id op' r s.store)

module _ {W R P : Type 0} (targets : Targets R P) (ports : Ports W R P) where
  abbrev round : List Step → Outcome Progress × State W → Outcome ApplyResult × State W
  round rest (returned (go_on updated), s) = run_steps targets ports rest updated s
  round rest (returned (stop r), s) = (returned r, s)
  round rest (thrown e, s) = (thrown e, s)

  round-continue :
      (rest : List Step) (x : Outcome Progress × State W)
      → continue x (λ progress. elim progress [
        | go_on updated ↦ run_steps targets ports rest updated
        | stop r ↦ pure r
      ])
        ≡ round rest x
  round-continue rest (returned (go_on updated), s) = refl
  round-continue rest (returned (stop r), s) = refl
  round-continue rest (thrown e, s) = refl

  run_steps-skip :
      (p : Step) (rest : List Step) (op : Journal) (s : State W)
      → is_pending p ≡ false
      → run_steps targets ports (p ∷ rest) op s ≡ run_steps targets ports rest op s
  unfolding run_steps
  run_steps-skip p rest op s e = rw (e, run_steps)

  run_steps-try :
      (p : Step) (rest : List Step) (op : Journal) (s : State W)
      → is_pending p ≡ true
      → run_steps targets ports (p ∷ rest) op s ≡ round rest (apply_step targets ports op p s)
  unfolding run_steps
  run_steps-try p rest op s e =
      rw (e, run_steps) (round-continue rest (apply_step targets ports op p s))

  finish_steps :
      (op : Journal) (s : State W) (before : List Step)
      → AtFront s op before []
      → is_active op.phase ≡ true
      → run_steps targets ports [] op s ≡ ended s op before ([], none, s.world)
  unfolding run_steps JournalStore.finish finish_journal reason_ok
  finish_steps op s before front active =
      let op' = closed none (record op { steps = before ++ [] }) in
      let finished : finish_journal op FinishPhase.succeeded none ≡ returned op' = ground arith in
      rw (
        edit_lem (λ r. finish_journal r FinishPhase.succeeded none) op.operation_id s.store op op'
          front.stored finished)

  module _ (p : Step) (rest before : List Step) (op : Journal) (s : State W)
      (front : AtFront s op before (p ∷ rest)) (active : is_active op.phase ≡ true)
      (fit : reason_ok p.reason ≡ true)
      (later : (before' : List Step) (op' : Journal) (s' : State W)
        → AtFront s' op' before' rest
        → is_active op'.phase ≡ true
        → run_steps targets ports rest op' s'
          ≡ ended s' op' before' (run_plan targets ports rest s'.world)) where
    elsewhere : (w : W) → AtFront (record s { world = w }) op before (p ∷ rest)
    elsewhere w = record {
      stored = front.stored;
      numbered = front.numbered;
      split = front.split;
      all_settled = front.all_settled;
    }

    moved_on :
        (w : W)
        → let op' = after op before p done rest in
          let s' : State W = record { store = put op.operation_id op' s.store; world = w } in
          AtFront s' op' (before ++ settled p done ∷ []) rest
    moved_on w =
        let op' = after op before p done rest in
        let same : map planned op'.steps ≡ map planned op.steps =
          rw front.split (simp map-append) in
        record {
          stored = get-put_self op.operation_id op' s.store;
          numbered = NumberedFrom-of_planned 1 op'.steps op.steps same front.numbered;
          split = sym (append_assoc before (settled p done ∷ []) rest);
          all_settled =
              All-append (λ s. is_pending s ≡ false) before (settled p done ∷ []) front.all_settled
                (refl, tt);
        }

    skip_round :
        is_pending p ≡ false
        → run_steps targets ports (p ∷ rest) op s
          ≡ ended s op before (run_plan targets ports (p ∷ rest) s.world)
    skip_round e =
        let front' : AtFront s op (before ++ p ∷ []) rest = record {
          stored = front.stored;
          numbered = front.numbered;
          split = front.split ∙ sym (append_assoc before (p ∷ []) rest);
          all_settled =
              All-append (λ s. is_pending s ≡ false) before (p ∷ []) front.all_settled (e, tt);
        } in
        run_steps-skip p rest op s e
        ∙ later (before ++ p ∷ []) op s front' active
        ∙ ended-shift s op before p (run_plan targets ports rest s.world)
        ∙ ap (ended s op before) (sym (run_plan-skip targets ports p rest s.world e))

    failed_round :
        (phase : FailPhase) (reason : String) (w : W)
        → is_pending p ≡ true
        → try_step targets ports p s.world ≡ (failed phase reason, w)
        → run_steps targets ports (p ∷ rest) op s
          ≡ ended s op before (run_plan targets ports (p ∷ rest) s.world)
    failed_round phase reason w e tried =
        let reasoned : WellReasoned (failed phase reason) =
          subst (λ v. WellReasoned v.0) tried (try_step-WellReasoned targets ports p s.world) in
        run_steps-try p rest op s e
        ∙ ap (round rest) (
            apply_step_lem targets ports op p s
            ∙ ap (λ v. journalled op p v s) tried
            ∙ append_failure_lem (record s { world = w }) op before p rest (elsewhere w) e phase
                reason reasoned)
        ∙ ap (ended s op before)
            (sym (run_plan-failed targets ports p rest s.world w phase reason e tried))

    done_round :
        (w : W)
        → is_pending p ≡ true
        → try_step targets ports p s.world ≡ (done, w)
        → run_steps targets ports (p ∷ rest) op s
          ≡ ended s op before (run_plan targets ports (p ∷ rest) s.world)
    done_round w e tried =
        let op' = after op before p done rest in
        let s' : State W = record { store = put op.operation_id op' s.store; world = w } in
        let plan = run_plan targets ports rest w in
        run_steps-try p rest op s e
        ∙ ap (round rest) (
            apply_step_lem targets ports op p s
            ∙ ap (λ v. journalled op p v s) tried
            ∙ append_success_lem (record s { world = w }) op before p rest (elsewhere w) e fit)
        ∙ later (before ++ settled p done ∷ []) op' s' (moved_on w) active
        ∙ ended-over s op op' (before ++ settled p done ∷ []) w plan
        ∙ ended-shift s op before (settled p done) plan
        ∙ ap (ended s op before) (sym (run_plan-done targets ports p rest s.world w e tried))

    pending_round :
        (v : Verdict × W)
        → is_pending p ≡ true
        → try_step targets ports p s.world ≡ v
        → run_steps targets ports (p ∷ rest) op s
          ≡ ended s op before (run_plan targets ports (p ∷ rest) s.world)
    pending_round (done, w) e tried = done_round w e tried
    pending_round (failed phase reason, w) e tried = failed_round phase reason w e tried

  pub run_steps_lem :
      (rest before : List Step) (op : Journal) (s : State W)
      → AtFront s op before rest
      → is_active op.phase ≡ true
      → AllReasoned rest
      → run_steps targets ports rest op s ≡ ended s op before (run_plan targets ports rest s.world)
  run_steps_lem [] before op s front active reasoned =
      finish_steps op s before front active
      ∙ ap (ended s op before) (sym (run_plan-nil targets ports s.world))
  run_steps_lem (p ∷ rest) before op s front active (fit, reasoned) =
      let later =
        λ (before' : List Step) (op' : Journal) (s' : State W)
            (front' : AtFront s' op' before' rest) (active' : is_active op'.phase ≡ true).
          run_steps_lem rest before' op' s' front' active' reasoned in
      elim (Bool-cases (is_pending p)) [
        | inl pending ↦
            pending_round p rest before op s front active fit later
              (try_step targets ports p s.world) pending refl
        | inr skipped ↦ skip_round p rest before op s front active fit later skipped
      ]
