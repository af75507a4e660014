-- ===== src/Apply/Correct.antt =====
-- deployment-apply.ts, applyDeploymentPlan: what it returns, stores and does on every phase.
use agx.Prelude.{◌≡◌, refl, ◌∙◌, none, some, Bool, true, false, [], arith, string_eq}
use agx.Prelude.Dict.{get, put, get-put_self}
use agx.Prelude.Outcome.{Outcome, returned}
use agx.Prelude.Exec.{◌>>=◌}
use agx.Journal.{JournalPhase, Journal}
use agx.Journal.Run.{start_journal}
use agx.Journal.Numbering.{NumberedFrom}
use agx.JournalStore
use agx.JournalStore.Keeping.{edit_lem}
use agx.Apply.{
  State, result, ApplyKind, ApplyResult, run_active, is_active, begin_at, apply_deployment_plan,
  on_store,
}
use agx.Apply.Remote.{Targets, Ports}
use agx.Apply.Spec.{run_plan}
use agx.Apply.Journalling.{AtFront}
use agx.Apply.Refinement.{ended, AllReasoned, run_steps_lem, ended-over}

abbrev pub is_startable : JournalPhase → Bool
is_startable JournalPhase.prepared = true
is_startable JournalPhase.needs_resume = true
is_startable _ = false

abbrev pub started : Journal → Journal
started op = record op { phase = JournalPhase.applying; next_action = "observe-operation" }

-- The operation as the loop meets it, by its phase, or how its run is refused.
pub data Start : Type 0 where
  runs : Journal → Start
  ends : ApplyKind → Start

abbrev pub start_of : JournalPhase → Journal → Start
start_of JournalPhase.prepared op = runs (started op)
start_of JournalPhase.needs_resume op = runs (started op)
start_of JournalPhase.applying op = runs op
start_of JournalPhase.observing op = runs op
start_of JournalPhase.succeeded op = ends ApplyKind.succeeded
start_of JournalPhase.inconclusive op = ends ApplyKind.inconclusive
start_of _ op = ends ApplyKind.needs_manual_cleanup

-- A stored operation whose steps are numbered from 1 and carry well-formed reasons or none.
pub record IsReady {W : Type 0} (s : State W) (op : Journal) : Type 0 where
  pub stored : get op.operation_id s.store ≡ some op
  pub numbered : NumberedFrom 1 op.steps
  pub reasoned : AllReasoned op.steps

module _ {W R P : Type 0} (targets : Targets R P) (ports : Ports W R P) where
  run_active_lem :
      (s : State W) (op : Journal)
      → IsReady s op
      → is_active op.phase ≡ true
      → run_active targets ports op s ≡ ended s op [] (run_plan targets ports op.steps s.world)
  unfolding run_active
  run_active_lem s op ready active =
      let front : AtFront s op [] op.steps = record {
        stored = ready.stored;
        numbered = ready.numbered;
        split = refl;
        all_settled = tt;
      } in
      rw active (run_steps_lem targets ports op.steps [] op s front active ready.reasoned)

  start_lem :
      (s : State W) (op : Journal)
      → IsReady s op
      → start_journal op ≡ returned (started op)
      → (on_store (JournalStore.start op.operation_id) >>= run_active targets ports) s
        ≡ ended s (started op) [] (run_plan targets ports op.steps s.world)
  unfolding JournalStore.start
  start_lem s op ready e =
      let op' = started op in
      let s' : State W = record { store = put op.operation_id op' s.store; world = s.world } in
      let ready' : IsReady s' op' = record {
        stored = get-put_self op.operation_id op' s.store;
        numbered = ready.numbered;
        reasoned = ready.reasoned;
      } in
      rw (edit_lem start_journal op.operation_id s.store op op' ready.stored e) (
        run_active_lem s' op' ready' refl
        ∙ ended-over s op' op' [] s.world (run_plan targets ports op.steps s.world))

  -- What a call leads to: the run of the plan, or a refusal that changes nothing.
  abbrev pub applied : State W → Journal → Start → Outcome ApplyResult × State W
  applied s op (runs op') = ended s op' [] (run_plan targets ports op.steps s.world)
  applied s op (ends kind) = (returned (result kind (some op) none), s)

  begin_lem :
      (s : State W) (op : Journal) (phase : JournalPhase)
      → op.phase ≡ phase
      → IsReady s op
      → begin_at targets ports phase op s ≡ applied s op (start_of phase op)
  unfolding begin_at start_journal
  begin_lem s op JournalPhase.prepared e ready = start_lem s op ready (ground arith)
  begin_lem s op JournalPhase.needs_resume e ready = start_lem s op ready (ground arith)
  begin_lem s op JournalPhase.applying e ready = run_active_lem s op ready (ground arith)
  begin_lem s op JournalPhase.observing e ready = run_active_lem s op ready (ground arith)
  begin_lem s op _ e ready = refl

  -- Applying a ready operation never throws. A prepared, resumable, applying or observing one runs
  -- the plan as specified, and its outcome is stored under its own identifier and returned; any
  -- other is answered by its phase, with the journal and the remote side left as they are.
  pub apply_refines :
      (s : State W) (op : Journal)
      → IsReady s op
      → apply_deployment_plan targets ports op.operation_id s ≡ applied s op (start_of op.phase op)
  unfolding apply_deployment_plan
  apply_refines s op ready = rw ready.stored (begin_lem s op op.phase refl ready)
