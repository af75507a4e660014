-- ===== src/Journal/Append.antt =====
-- operation-journal.ts, appendOperationStep: settling the next pending step.
pub mod Settling
use agx.Prelude.{
  Bool, true, false, not, ◌&&◌, Option, none, some, nat_eq, string_eq, ◌==◌, if◌then◌else◌, find,
}
use agx.Prelude.Outcome.{Outcome, returned, thrown}
use agx.Journal.{StepPhase, JournalPhase, Step, Journal, is_pending, kind_tag, update_at}
use agx.Journal.Reasons.{reason_ok}

is_verified : StepPhase → Bool
is_verified StepPhase.verified = true
is_verified _ = false

-- the last three lines of `appendOperationStep`, by the phase of the step
unfoldable pub settle : StepPhase → Journal → Journal
settle StepPhase.inconclusive r = record r {
  phase = JournalPhase.inconclusive;
  next_action = "observe-remote-state";
}
settle StepPhase.needs_manual_cleanup r = record r {
  phase = JournalPhase.needs_manual_cleanup;
  next_action = "manual-cleanup";
}
settle _ r = r

append_at : Option Step → Journal → Step → Outcome Journal
append_at none r step = thrown "operation step sequence is not append-only"
append_at (some next) r step =
    if not (step.sequence == next.sequence)
    then thrown "operation step sequence is not append-only"
    else if not (kind_tag step.kind == kind_tag next.kind && step.resource == next.resource)
    then thrown "operation step does not match plan"
    else if not (reason_ok step.reason)
    then thrown "invalid operation step reason"
    else returned
        (settle step.phase (record r { steps = update_at step.sequence (λ _. step) r.steps }))

unfoldable pub append_step : Journal → Step → Outcome Journal
unfolding is_verified append_at
append_step r step =
    if is_verified step.phase
    then thrown "verified requires evaluator-approved evidence"
    else append_at (find is_pending r.steps) r step
