-- ===== src/Journal/Plan/Realising.antt =====
-- createOperationJournal: the steps of a new journal are those of the plan, numbered, and pending.
use agx.Prelude.{
  ℕ, suc, ◌≡◌, refl, not, List, [], ◌∷◌, some, none, arith, all, if◌then◌else◌, ◌&&◌, Bool,
}
use agx.Prelude.Text.{is_blank}
use agx.Prelude.Outcome.{returned, thrown}
use agx.Journal.{Step, StepPhase, JournalPhase, Journal, PlanStep, PlanInput, retain}
use agx.Journal.Plan.{plan_steps, plan_step, is_resource_id, no_steps, create_journal}
use agx.Journal.Numbering.{NumberedFrom}

-- The steps of a plan, numbered on from `n`.
abbrev pub pending_steps : ℕ → List PlanStep → List Step
pending_steps n [] = []
pending_steps n (p ∷ ps) =
    record {
      sequence = n;
      kind = p.kind;
      resource = p.resource;
      phase = StepPhase.pending;
      reason = none;
    }
    ∷ pending_steps (suc n) ps

pub pending_steps-NumberedFrom : (n : ℕ) (ps : List PlanStep) → NumberedFrom n (pending_steps n ps)
pending_steps-NumberedFrom n [] = tt
pending_steps-NumberedFrom n (p ∷ ps) = (refl, pending_steps-NumberedFrom (suc n) ps)

abbrev pub resources_ok : List PlanStep → Bool
resources_ok = all (λ p. is_resource_id p.resource)

plan_steps_lem :
    (n : ℕ) (ps : List PlanStep)
    → plan_steps n ps ≡ (
        if resources_ok ps
        then returned (pending_steps n ps)
        else thrown "invalid operation plan step")
unfolding plan_steps plan_step
plan_steps_lem n [] = refl
plan_steps_lem n (p ∷ ps) = ground (arith, plan_steps_lem (suc n) ps)

abbrev pub has_ids : PlanInput → Bool
has_ids input =
    not (is_blank input.operation_id)
    && not (is_blank input.deployment_id)
    && not (is_blank input.revision_id)

abbrev pub new_journal : PlanInput → Journal
new_journal input = record {
  operation_id = input.operation_id;
  deployment_id = input.deployment_id;
  revision_id = some input.revision_id;
  phase = JournalPhase.prepared;
  steps = pending_steps 1 input.steps;
  resolutions = some [];
  remote_retention = retain;
  next_action = "start-operation";
  reason = none;
}

-- A plan with identifiers and at least one step whose resource names are all well formed becomes
-- a prepared journal of pending steps numbered from 1; any other is refused, the identifiers and
-- the empty plan before the resource names.
pub create_journal_lem :
    (input : PlanInput)
    → create_journal input ≡ (
        if has_ids input && not (no_steps input.steps)
        then (if resources_ok input.steps
            then returned (new_journal input)
            else thrown "invalid operation plan step")
        else thrown "invalid operation plan")
unfolding create_journal
create_journal_lem input = ground (arith, plan_steps_lem 1 input.steps)
