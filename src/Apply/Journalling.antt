-- ===== src/Apply/Journalling.antt =====
-- deployment-apply.ts: what the journal holds after a step is settled.
use agx.Prelude.{String, ◌≡◌, ◌≢◌, refl, ap, ◌∙◌, none, some, true, List, ◌∷◌, ◌++◌, find}
use agx.Prelude.Dict.{get, put}
use agx.Prelude.Outcome.{returned}
use agx.Journal.{Step, StepPhase, Journal, is_pending}
use agx.Journal.Reasons.{reason_ok}
use agx.Journal.Append.{append_step, settle}
use agx.Journal.Append.Settling.{Accepts, append_step-settle_iff, with_next}
use agx.Journal.Numbering.{NumberedFrom, planned}
use agx.Journal.Front.{AllSettled, find-front, change_first-front}
use agx.JournalStore
use agx.JournalStore.Keeping.{edit_lem}
use agx.Apply.{
  State, Progress, go_on, stop, FailPhase, step_phase, append_failure, append_success, fail_at,
  result, apply_kind,
}
use agx.Apply.Codes.{reason_code}
use agx.Apply.Spec.{Verdict, done, failed, settled}

-- The operation is stored as it is held, its steps are numbered, and those before `rest` settled.
pub record AtFront {W : Type 0} (s : State W) (op : Journal) (before rest : List Step)
    : Type 0 where
  pub stored : get op.operation_id s.store ≡ some op
  pub numbered : NumberedFrom 1 op.steps
  pub split : op.steps ≡ before ++ rest
  pub all_settled : AllSettled before

append_front :
    (op : Journal) (before : List Step) (s : Step) (rest : List Step) (step : Step)
    → NumberedFrom 1 op.steps
    → op.steps ≡ before ++ s ∷ rest
    → AllSettled before
    → is_pending s ≡ true
    → planned step ≡ planned s
    → step.phase ≢ StepPhase.verified
    → reason_ok step.reason ≡ true
    → append_step op step
      ≡ returned (settle step.phase (record op { steps = before ++ step ∷ rest }))
append_front op before s rest step numbered split h p same phase reason =
    let a : Accepts op step = record {
      next = s;
      is_next = rw split (find-front is_pending before s rest h p);
      as_planned = same;
      not_verified = phase;
      fit_reason = reason;
    } in
    let one : (with_next op step).steps ≡ before ++ step ∷ rest =
      rw split (change_first-front is_pending (λ _. step) before s rest h p) in
    (append_step-settle_iff op (settle step.phase (with_next op step)) step numbered).1 (a, refl)
    ∙ ap (λ l. returned (settle step.phase (record op { steps = l }))) one

step_phase-ne-verified : (phase : FailPhase) → step_phase phase ≢ StepPhase.verified
step_phase-ne-verified FailPhase.inconclusive e = cc
step_phase-ne-verified FailPhase.needs_manual_cleanup e = cc

-- The operation with its first open step settled by the verdict.
abbrev pub after : Journal → List Step → Step → Verdict → List Step → Journal
after op before s verdict rest = record op { steps = before ++ settled s verdict ∷ rest }

abbrev pub fail_result : FailPhase → Journal → Progress
fail_result phase op = stop (result (apply_kind phase) (some op) none)

module _ {W : Type 0} (s : State W) (op : Journal) (before : List Step) (p : Step)
    (rest : List Step) (front : AtFront s op before (p ∷ rest))
    (pending : is_pending p ≡ true) where
  abbrev stored_as : Journal → State W
  stored_as r = record s { store = put op.operation_id r s.store }

  pub append_success_lem :
      reason_ok p.reason ≡ true
      → let op' = after op before p done rest in
        append_success op p s ≡ (returned (go_on op'), stored_as op')
  unfolding append_success JournalStore.append settle
  append_success_lem fit =
      let op' = after op before p done rest in
      let step = settled p done in
      let appended : append_step op step ≡ returned op' =
        append_front op before p rest step front.numbered front.split front.all_settled pending refl
          (λ e. cc) fit in
      rw (edit_lem (λ r. append_step r step) op.operation_id s.store op op' front.stored appended)

  pub append_failure_lem :
      (phase : FailPhase) (reason : String)
      → reason_ok (some (reason_code reason)) ≡ true
      → let op' = settle (step_phase phase) (after op before p (failed phase reason) rest) in
        append_failure op phase reason s ≡ (returned (fail_result phase op'), stored_as op')
  unfolding append_failure JournalStore.append
  append_failure_lem phase reason fit =
      let op' = settle (step_phase phase) (after op before p (failed phase reason) rest) in
      let step = settled p (failed phase reason) in
      let found : find is_pending op.steps ≡ some p =
        rw front.split (find-front is_pending before p rest front.all_settled pending) in
      let appended : append_step op step ≡ returned op' =
        append_front op before p rest step front.numbered front.split front.all_settled pending refl
          (step_phase-ne-verified phase) fit in
      rw (found, fail_at)
        (rw
          (edit_lem (λ r. append_step r step) op.operation_id s.store op op' front.stored appended))
