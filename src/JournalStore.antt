-- ===== src/JournalStore.antt =====
-- packages/control-plane/src/adapters/operation/in-memory-journal.ts: the journals by operation.
-- Each method gives its outcome and the map after it; a method that throws changes no entry.
pub mod Keeping
use agx.Prelude.{String, Option, none, some, Bool, true, false}
use agx.Prelude.Dict.{Dict, get, put}
use agx.Prelude.Outcome.{Outcome, returned, thrown}
use agx.Time.{DateParse}
use agx.Journal.{Journal, Step, Resolution, PlanInput}
use agx.Journal.Plan.{create_journal}
use agx.Journal.Append.{append_step}
use agx.Journal.Resolve.{resolve_inconclusive}
use agx.Journal.Run.{start_journal, finish_journal, FinishPhase}

abbrev pub Store : Type 0
Store = Dict Journal

keep_result : String → Outcome Journal → Store → Outcome Journal × Store
keep_result id (thrown e) m = (thrown e, m)
keep_result id (returned r) m = (returned r, put id r m)

-- the common shape of `start`, `resolveInconclusive`, `finish` and `appendStep`
edit_found : Option Journal → (Journal → Outcome Journal) → String → Store → Outcome Journal × Store
edit_found none f id m = (thrown "operation not found", m)
edit_found (some current) f id m = keep_result id (f current) m

unfoldable pub edit : (Journal → Outcome Journal) → String → Store → Outcome Journal × Store
unfolding edit_found keep_result
edit f id m = edit_found (get id m) f id m

prepare_new : Option Journal → PlanInput → Store → Outcome Journal × Store
prepare_new (some r) input m = (thrown "operation already prepared", m)
prepare_new none input m = keep_result input.operation_id (create_journal input) m

unfoldable pub prepare : PlanInput → Store → Outcome Journal × Store
unfolding prepare_new keep_result
prepare input m = prepare_new (get input.operation_id m) input m

unfoldable pub start : String → Store → Outcome Journal × Store
start id m = edit start_journal id m

unfoldable pub append : String → Step → Store → Outcome Journal × Store
append id step m = edit (λ r. append_step r step) id m

unfoldable pub finish : String → FinishPhase → Option String → Store → Outcome Journal × Store
finish id phase reason m = edit (λ r. finish_journal r phase reason) id m

unfoldable pub resolve : DateParse → String → Resolution → String → Store → Outcome Journal × Store
resolve parse id resolution now m = edit (λ r. resolve_inconclusive parse r resolution now) id m
