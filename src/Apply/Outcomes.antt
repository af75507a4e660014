-- ===== src/Apply/Outcomes.antt =====
-- deployment-apply.ts, applyDeploymentPlan: what the stored operation looks like after a run.
use agx.Prelude.{
  String, ◌≡◌, ◌≢◌, refl, sym, ap, subst, ◌∙◌, Option, none, some, List, arith, Option-cases, inl,
  inr, map, ◌⊎◌, string_eq, eq_iff,
}
use agx.Prelude.Dict.{get, put, get-put, get-put_self}
use agx.Prelude.Outcome.{returned}
use agx.Journal.{Step, JournalPhase, Journal}
use agx.Journal.Append.{settle}
use agx.Journal.Numbering.{planned}
use agx.Apply.{State, FailPhase, apply_kind, ApplyKind, ApplyResult, result, apply_deployment_plan}
use agx.Apply.Remote.{Targets, Ports}
use agx.Apply.Spec.{run_plan}
use agx.Apply.Plans.{
  AllFresh, AllSucceeded, FailedAt, run_plan-planned, run_plan-AllSucceeded, run_plan-FailedAt,
}
use agx.Apply.Refinement.{closed, closing_kind}
use agx.Apply.Correct.{IsReady, runs, start_of, apply_refines, applied}

abbrev pub journal_phase : FailPhase → JournalPhase
journal_phase FailPhase.inconclusive = JournalPhase.inconclusive
journal_phase FailPhase.needs_manual_cleanup = JournalPhase.needs_manual_cleanup

-- What is returned and stored after a run of the operation `op` in the state `s`.
pub record Ran {W : Type 0} (s : State W) (op : Journal) (r : ApplyResult) (s' : State W)
    : Type 0 where
  pub operation : Journal
  pub is_returned : r.operation ≡ some operation
  pub is_stored : get op.operation_id s'.store ≡ some operation
  pub others : (id : String) → id ≢ op.operation_id → get id s'.store ≡ get id s.store
  pub same_plan : map planned operation.steps ≡ map planned op.steps
  pub outcome :
      ((r.kind ≡ ApplyKind.succeeded)
        × (operation.phase ≡ JournalPhase.succeeded)
        × AllSucceeded operation.steps)
      ⊎ ((phase : FailPhase) × (r.kind ≡ apply_kind phase)
          × (operation.phase ≡ journal_phase phase)
          × FailedAt phase op.steps operation.steps)

closed-steps : (f : Option FailPhase) (op : Journal) → (closed f op).steps ≡ op.steps
unfolding settle
closed-steps none op = refl
closed-steps (some FailPhase.inconclusive) op = refl
closed-steps (some FailPhase.needs_manual_cleanup) op = refl

closed-phase : (p : FailPhase) (op : Journal) → (closed (some p) op).phase ≡ journal_phase p
unfolding settle
closed-phase FailPhase.inconclusive op = refl
closed-phase FailPhase.needs_manual_cleanup op = refl

start_of-operation_id :
    (op op₀ : Journal) → start_of op.phase op ≡ runs op₀ → op₀.operation_id ≡ op.operation_id
start_of-operation_id op op₀ e = ground arith

module _ {W R P : Type 0} (targets : Targets R P) (ports : Ports W R P) where
  run_outcome :
      (steps : List Step) (w : W) (op₀ : Journal)
      → AllFresh steps
      → let t = run_plan targets ports steps w in
        let op' = closed t.1 (record op₀ { steps = t.0 }) in
        ((closing_kind t.1 ≡ ApplyKind.succeeded)
          × (op'.phase ≡ JournalPhase.succeeded)
          × AllSucceeded op'.steps)
        ⊎ ((phase : FailPhase) × (closing_kind t.1 ≡ apply_kind phase)
            × (op'.phase ≡ journal_phase phase)
            × FailedAt phase steps op'.steps)
  run_outcome steps w op₀ fresh =
      let t = run_plan targets ports steps w in
      let left = closed-steps t.1 (record op₀ { steps = t.0 }) in
      elim (Option-cases t.1) [
        | inl none_failed ↦ inl (
          ap closing_kind none_failed,
          rw none_failed refl,
          subst AllSucceeded (sym left)
              (run_plan-AllSucceeded targets ports steps w fresh none_failed),
        )
        | inr (phase, failure) ↦ inr (
          phase,
          ap closing_kind failure,
          rw failure (closed-phase phase _),
          subst (FailedAt phase steps) (sym left)
              (run_plan-FailedAt targets ports steps w phase fresh failure),
        )
      ]

  -- Applying a ready operation whose steps have succeeded or are pending, in a phase that runs,
  -- returns and stores one operation with the same plan and touches no other entry. Either all its
  -- steps have succeeded, or one pending step was tried and failed: those before it have succeeded,
  -- those after it are as they were, and the operation has the phase of the failure.
  pub apply-Ran :
      (s : State W) (op op₀ : Journal)
      → IsReady s op
      → AllFresh op.steps
      → start_of op.phase op ≡ runs op₀
      → (r : ApplyResult) × (s' : State W) × (apply_deployment_plan targets ports op.operation_id s
          ≡ (returned r, s'))
        × Ran s op r s'
  apply-Ran s op op₀ ready fresh start =
      let t = run_plan targets ports op.steps s.world in
      let op' = closed t.1 (record op₀ { steps = t.0 }) in
      let same = start_of-operation_id op op₀ start in
      (
        result (closing_kind t.1) (some op') none,
        record { store = put op₀.operation_id op' s.store; world = t.2 },
        apply_refines targets ports s op ready ∙ ap (applied targets ports s op) start,
        record {
          operation = op';
          is_returned = refl;
          is_stored =
              subst (λ id. get id (put op₀.operation_id op' s.store) ≡ some op') same
                (get-put_self op₀.operation_id op' s.store);
          others = λ id ne.
              ground (arith, get-put op₀.operation_id id op' s.store, eq_iff op₀.operation_id id);
          same_plan =
              ap (map planned) (closed-steps t.1 (record op₀ { steps = t.0 }))
              ∙ run_plan-planned targets ports op.steps s.world;
          outcome = run_outcome op.steps s.world op₀ fresh;
        },
      )
