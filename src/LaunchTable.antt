-- ===== src/LaunchTable.antt =====
-- packages/control-plane/src/adapters/sqlite/launch-repository.ts and fact-columns.ts: the table
-- `launch_plan`, its rows in the order of their row numbers, with what the statements do to them.
pub mod Rows
pub mod Tests
use agx.Prelude.{
  ℕ, String, Option, none, some, Bool, true, false, not, ◌&&◌, List, [], ◌∷◌, StrictEq, nat_eq,
  string_eq, ◌==◌, if◌then◌else◌, find,
}
use agx.Prelude.Optional.{or_else, ◌>>=◌}
use agx.Facts.{Fact}
use agx.Client.{ClientId, client_text, all_client_ids}
use agx.Activation.Names.{phase_text, outcome_text}
use agx.Activation.{LaunchPhase, ObservedOutcome, LaunchPlan}

pub data FactStatus : Type 0 where
  known unknown : FactStatus

-- The four columns of a fact; the status is one of two texts.
pub record FactColumns : Type 0 where
  pub status : FactStatus
  pub value : Option String
  pub reason : Option String
  pub observed_at : Option String

-- A fact whose value is a text or, by `text`, is held as one.
abbrev pub fact_columns : {A : Type 0} → (A → String) → Fact A → FactColumns
fact_columns text (Fact.known a) = record {
  status = FactStatus.known;
  value = some (text a);
  reason = none;
  observed_at = none;
}
fact_columns text (Fact.unknown reason at) = record {
  status = FactStatus.unknown;
  value = none;
  reason = some reason;
  observed_at = some at;
}

abbrev unspecified : {A : Type 0} → FactColumns → Fact A
unspecified c =
    Fact.unknown (or_else c.reason "unspecified") (or_else c.observed_at "1970-01-01T00:00:00.000Z")

abbrev known_of :
    {A : Type 0} → (String → Option A) → FactStatus → Option String → FactColumns → Option (Fact A)
known_of parse FactStatus.known (some v) c = elim (parse v) [
  | none ↦ none
  | some a ↦ some (Fact.known a)
]
known_of parse _ _ c = some (unspecified c)

-- `none` stands for a stored text that the source's cast takes for a value that it is not.
abbrev pub fact_column_to_fact : {A : Type 0} → (String → Option A) → FactColumns → Option (Fact A)
fact_column_to_fact parse c = known_of parse c.status c.value c

pub record LaunchPlanRow : Type 0 where
  pub plan_id : String
  pub operation_id : String
  pub revision_id : String
  pub config_name : String
  pub client : String
  pub plan_hash : String
  pub phase : String
  pub created_at : String
  pub confirmed_at : FactColumns
  pub failure_reason : FactColumns
  pub observed_outcome : FactColumns

-- The value with the text, in a list of the values of a type.
abbrev pub read_as : {A : Type 0} → (A → String) → List A → String → Option A
read_as text values s = find (λ a. text a == s) values

abbrev all_phases : List LaunchPhase
all_phases =
    LaunchPhase.prepared ∷ LaunchPhase.awaiting_confirmation ∷ LaunchPhase.applying
    ∷ LaunchPhase.observing ∷ LaunchPhase.succeeded ∷ LaunchPhase.degraded ∷ LaunchPhase.failed
    ∷ LaunchPhase.cancelled ∷ LaunchPhase.requires_restart ∷ LaunchPhase.incomplete ∷ []

abbrev all_outcomes : List ObservedOutcome
all_outcomes =
    ObservedOutcome.succeeded ∷ ObservedOutcome.degraded ∷ ObservedOutcome.failed
    ∷ ObservedOutcome.incomplete ∷ []

-- the values that `save` binds
unfoldable pub plan_row : LaunchPlan → LaunchPlanRow
plan_row p = record {
  plan_id = p.plan_id;
  operation_id = p.operation_id;
  revision_id = p.revision_id;
  config_name = p.config_name;
  client = client_text p.client;
  plan_hash = p.plan_hash;
  phase = phase_text p.phase;
  created_at = p.created_at;
  confirmed_at = fact_columns (λ t. t) p.confirmed_at;
  failure_reason = fact_columns (λ t. t) p.failure_reason;
  observed_outcome = fact_columns outcome_text p.observed_outcome;
}

unfoldable pub row_to_plan : LaunchPlanRow → Option LaunchPlan
row_to_plan row = do
  client ← read_as client_text all_client_ids row.client
  phase ← read_as phase_text all_phases row.phase
  confirmed_at ← fact_column_to_fact (λ t. some t) row.confirmed_at
  failure_reason ← fact_column_to_fact (λ t. some t) row.failure_reason
  observed_outcome ← fact_column_to_fact (read_as outcome_text all_outcomes) row.observed_outcome
  some (record {
    plan_id = row.plan_id;
    operation_id = row.operation_id;
    revision_id = row.revision_id;
    config_name = row.config_name;
    client = client;
    plan_hash = row.plan_hash;
    phase = phase;
    created_at = row.created_at;
    confirmed_at = confirmed_at;
    failure_reason = failure_reason;
    observed_outcome = observed_outcome;
  })

abbrev pub Table : Type 0
Table = List LaunchPlanRow

-- `INSERT … ON CONFLICT(plan_id) DO UPDATE SET …`: of a row that is there, the key and `created_at`
-- are not among the columns that are set.
unfoldable pub save : LaunchPlan → Table → Table
save plan [] = plan_row plan ∷ []
save plan (row ∷ rows) =
    if row.plan_id == plan.plan_id
    then record (plan_row plan) { created_at = row.created_at } ∷ rows
    else row ∷ save plan rows

abbrev updated_row : LaunchPlan → LaunchPlanRow → LaunchPlanRow
updated_row plan row = record row {
  phase = phase_text plan.phase;
  confirmed_at = fact_columns (λ t. t) plan.confirmed_at;
  failure_reason = fact_columns (λ t. t) plan.failure_reason;
  observed_outcome = fact_columns outcome_text plan.observed_outcome;
}

-- `UPDATE … WHERE plan_id = ? AND phase = ?`: the key is unique, so one row at most is changed.
unfoldable pub save_if_phase : LaunchPlan → LaunchPhase → Table → Bool × Table
save_if_phase plan expected [] = (false, [])
save_if_phase plan expected (row ∷ rows) =
    let (changed, rest) = save_if_phase plan expected rows in
    if row.plan_id == plan.plan_id
    then (if row.phase == phase_text expected
        then (true, updated_row plan row ∷ rows)
        else (false, row ∷ rows))
    else (changed, row ∷ rest)

-- `SELECT … WHERE plan_id = ?`
select : String → Table → Option LaunchPlanRow
select id rows = find (λ row. row.plan_id == id) rows

unfoldable pub find_by_id : String → Table → Option LaunchPlan
unfolding select
find_by_id id rows = do row ← select id rows; row_to_plan row
