-- ===== src/Journal/Resolve.antt =====
-- operation-journal.ts, resolveInconclusiveOperation: what was found out about an uncertain step.
pub mod Resolving
use agx.Prelude.{
  ℕ, ◌-◌, ◌*◌, String, Bool, true, false, ◌&&◌, Option, none, some, List, [], ◌∷◌, ◌++◌, leb, ltb,
  nat_eq, string_eq, ◌==◌, if◌then◌else◌, find,
}
use agx.Prelude.Text.{is_hex_of}
use agx.Prelude.Outcome.{Outcome, returned, thrown}
use agx.Time.{DateParse, minute}
use agx.Journal.{
  StepPhase, JournalPhase, Step, Resolution, ResolutionOutcome, matched, Journal, is_open, kind_tag,
  update_at,
}

-- OPERATION_RESOLUTION_MAX_AGE_MS
abbrev pub resolution_max_age : ℕ
resolution_max_age = 15 * minute

-- the comparisons of instants in `resolveInconclusiveOperation`
unfoldable pub is_fresh : Option ℕ → Option ℕ → Bool
is_fresh (some observed) (some now) = leb observed now && ltb (now - observed) resolution_max_age
is_fresh _ _ = false

abbrev is_inconclusive : JournalPhase → Bool
is_inconclusive JournalPhase.inconclusive = true
is_inconclusive _ = false

abbrev pub past : Option (List Resolution) → List Resolution
past none = []
past (some l) = l

-- the step as it was planned
abbrev pub reopen : Step → Step
reopen s = record s { phase = StepPhase.pending; reason = none }

unfoldable pub record_resolution : ResolutionOutcome → ℕ → Journal → Journal
record_resolution matched n r = record r {
  steps = update_at n reopen r.steps;
  phase = JournalPhase.needs_resume;
  next_action = "resume-operation";
}
record_resolution _ n r = record r {
  phase = JournalPhase.needs_manual_cleanup;
  next_action = "manual-cleanup";
}

module _ (parse : DateParse) where
  -- that the resolution is about this step of this operation, and recent
  unfoldable pub binds : Journal → Step → Resolution → String → Bool
  binds r next resolution now =
      resolution.operation_id == r.operation_id
      && resolution.deployment_id == r.deployment_id
      && resolution.sequence == next.sequence
      && kind_tag resolution.kind == kind_tag next.kind
      && resolution.resource == next.resource
      && is_hex_of 64 resolution.fingerprint
      && is_fresh (parse resolution.observed_at) (parse now)

  resolve_at : Option Step → Journal → Resolution → String → Outcome Journal
  resolve_at none r resolution now = thrown "invalid operation resolution"
  resolve_at (some next) r resolution now =
      if is_inconclusive r.phase && binds r next resolution now
      then returned (
          record_resolution resolution.outcome next.sequence
            (record r { resolutions = some (past r.resolutions ++ resolution ∷ []) }))
      else thrown "invalid operation resolution"

  unfoldable pub resolve_inconclusive : Journal → Resolution → String → Outcome Journal
  unfolding resolve_at
  resolve_inconclusive r resolution now = resolve_at (find is_open r.steps) r resolution now
