-- ===== src/Journal/Run.antt =====
-- operation-journal.ts, startOperationJournal and finishOperationJournal.
use agx.Prelude.{
  String, Bool, true, false, not, Option, none, some, nat_eq, string_eq, if◌then◌else◌,
}
use agx.Prelude.Outcome.{Outcome, returned, thrown}
use agx.Journal.{JournalPhase, Journal}
use agx.Journal.Reasons.{reason_ok}

start_at : JournalPhase → Journal → Outcome Journal
start_at JournalPhase.prepared r =
    returned (record r { phase = JournalPhase.applying; next_action = "observe-operation" })
start_at JournalPhase.needs_resume r =
    returned (record r { phase = JournalPhase.applying; next_action = "observe-operation" })
start_at _ r = thrown "operation is not resumable"

unfoldable pub start_journal : Journal → Outcome Journal
unfolding start_at
start_journal r = start_at r.phase r

pub data FinishPhase : Type 0 where
  succeeded failed cancelled : FinishPhase

abbrev pub finish_phase : FinishPhase → JournalPhase
finish_phase FinishPhase.succeeded = JournalPhase.succeeded
finish_phase FinishPhase.failed = JournalPhase.failed
finish_phase FinishPhase.cancelled = JournalPhase.cancelled

abbrev finish_action : FinishPhase → String
finish_action FinishPhase.failed = "inspect-diagnostics"
finish_action _ = "none"

abbrev is_running : JournalPhase → Bool
is_running JournalPhase.applying = true
is_running JournalPhase.observing = true
is_running _ = false

abbrev or_else : Option String → Option String → Option String
or_else none old = old
or_else (some r) old = some r

unfoldable pub finish_journal : Journal → FinishPhase → Option String → Outcome Journal
finish_journal r phase reason =
    if not (is_running r.phase)
    then thrown "operation is not applying"
    else if not (reason_ok reason)
    then thrown "invalid operation reason"
    else returned (record r {
      phase = finish_phase phase;
      next_action = finish_action phase;
      reason = or_else reason r.reason;
    })
