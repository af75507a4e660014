-- ===== src/Journal/Plan.antt =====
-- operation-journal.ts, createOperationJournal: a journal from a plan.
pub mod Realising
use Prim.Native.Char.{code}
use agx.Prelude.{
  ℕ, suc, String, Bool, true, false, ◌&&◌, ◌||◌, none, some, List, [], ◌∷◌, leb, nat_eq, string_eq,
  ◌==◌, if◌then◌else◌,
}
use agx.Prelude.Text.{is_blank, units, all_in, is_alnum}
use agx.Prelude.Outcome.{Outcome, returned, thrown, ◌>>=◌}
use agx.Journal.{StepPhase, JournalPhase, Step, retain, Journal, PlanStep, PlanInput}

abbrev is_resource_char : ℕ → Bool
is_resource_char c = is_alnum c || c == b'.' || c == b'_' || c == b':' || c == b'/' || c == b'-'

-- RESOURCE_ID
unfoldable pub is_resource_id : String → Bool
unfolding all_in units
is_resource_id String.[] = false
is_resource_id (String.◌∷◌ c s) =
    is_alnum (code c) && all_in is_resource_char s && leb (units s) 127

plan_step : ℕ → PlanStep → Outcome Step
plan_step n p =
    if is_resource_id p.resource
    then returned (record {
      sequence = n;
      kind = p.kind;
      resource = p.resource;
      phase = StepPhase.pending;
      reason = none;
    })
    else thrown "invalid operation plan step"

-- the `map` of `createOperationJournal`
unfoldable pub plan_steps : ℕ → List PlanStep → Outcome (List Step)
unfolding plan_step
plan_steps n [] = returned []
plan_steps n (p ∷ ps) = do
  step ← plan_step n p
  rest ← plan_steps (suc n) ps
  returned (step ∷ rest)

abbrev pub no_steps : List PlanStep → Bool
no_steps [] = true
no_steps (p ∷ ps) = false

unfoldable pub create_journal : PlanInput → Outcome Journal
unfolding plan_steps
create_journal input =
    if is_blank input.operation_id
      || is_blank input.deployment_id
      || is_blank input.revision_id
      || no_steps input.steps
    then thrown "invalid operation plan"
    else do
      steps ← plan_steps 1 input.steps
      returned (record {
        operation_id = input.operation_id;
        deployment_id = input.deployment_id;
        revision_id = some input.revision_id;
        phase = JournalPhase.prepared;
        steps = steps;
        resolutions = some [];
        remote_retention = retain;
        next_action = "start-operation";
        reason = none;
      })
