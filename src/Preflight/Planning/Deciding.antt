-- ===== src/Preflight/Planning/Deciding.antt =====
-- deployment-preflight.ts, prepareDeploymentPlan: what becomes of a plan, and of what is stored.
use agx.Prelude.{◌≡◌, refl, ap, none, some, List, [], ◌∷◌, inl, inr, Option-cases}
use agx.Prelude.Dict.{get, put}
use agx.Prelude.Outcome.{Outcome, returned, thrown}
use agx.Journal.{Journal}
use agx.Journal.Plan.Realising.{new_journal}
use agx.JournalStore
use agx.JournalStore.{Store}
use agx.Apply.{State}
use agx.Preflight.{Input, Blocker, Host, input_blockers, build_plan_input}
use agx.Preflight.Diagnosing.{diagnostic_plan}
use agx.Preflight.Asking.{Ports, ask_sources, ask_remote}
use agx.Preflight.Planning.{
  Result, ready, blocked, prepare_operation_plan, prepared, prepare_deployment_plan, after_input,
  after_sources, after_remote,
}
use agx.Preflight.Clearing.{unblocked_lem}
use agx.Preflight.Answering.{Cleared, all_Cleared}

module _ {W D : Type 0} (host : Host) (ports : Ports W D) (input : Input D) where
  abbrev pub planned : Journal
  planned = new_journal (build_plan_input host input)

  -- The call of a preflight ended in one of three ways, and has done to the store what it says.
  pub data Ends (m : Store) : Outcome Result × State W → Type 0 where
    stays_blocked :
        (b : Blocker) (bs : List Blocker) (w : W)
        → Ends m (
          returned (blocked (diagnostic_plan (build_plan_input host input)) (b ∷ bs)),
          record { store = m; world = w },
        )
    is_ready :
        (w : W)
        → input_blockers host input ≡ []
        → Cleared host ports input
        → get input.operation_id m ≡ none
        → Ends m (
          returned (ready planned),
          record { store = put input.operation_id planned m; world = w },
        )
    is_taken :
        (w : W) (r : Journal)
        → get input.operation_id m ≡ some r
        → Ends m (thrown "operation already prepared", record { store = m; world = w })

  prepare_lem :
      (m : Store) (w : W)
      → input_blockers host input ≡ []
      → Cleared host ports input
      → Ends m (prepared host ports (prepare_operation_plan (build_plan_input host input) m) w)
  unfolding prepare_operation_plan JournalStore.prepare build_plan_input
  prepare_lem m w unblocked cleared = elim (Option-cases (get input.operation_id m)) [
    | inl free ↦
        rw (unblocked_lem host input unblocked, free, unblocked_lem host input unblocked)
          (is_ready w unblocked cleared free)
    | inr (r, taken) ↦ rw (unblocked_lem host input unblocked, taken) (is_taken w r taken)
  ]

  -- Preparing a deployment plan ends in one of three ways. It is blocked, for a reason, and nothing
  -- is stored. Or it is ready: nothing is held against the input, every port was asked and gave the
  -- answer that is needed, the operation was not stored, and its new plan is, in a journal of
  -- pending steps. Or it throws since the operation is stored, and nothing changes.
  pub preflight_lem : (s : State W) → Ends s.store (prepare_deployment_plan host ports input s)
  unfolding prepare_deployment_plan
  preflight_lem s = at_input (input_blockers host input) refl
    where
      at_remote :
          (r : List Blocker × W) (w : W)
          → input_blockers host input ≡ []
          → (ask_sources host ports input s.world).0 ≡ []
          → ask_remote host ports input (ask_sources host ports input s.world).1 ≡ r
          → Ends s.store (after_remote host ports r input s.store)
      at_remote (b ∷ bs, v) w unblocked sources e = stays_blocked b bs v
      at_remote ([], v) w unblocked sources e =
          prepare_lem s.store v unblocked
            (all_Cleared host ports input s.world sources (ap (λ x. x.0) e))

      at_sources :
          (r : List Blocker × W)
          → input_blockers host input ≡ []
          → ask_sources host ports input s.world ≡ r
          → Ends s.store (after_sources host ports r input s.store)
      at_sources (b ∷ bs, w) unblocked e = stays_blocked b bs w
      at_sources ([], w) unblocked e =
          at_remote (ask_remote host ports input w) w unblocked (ap (λ x. x.0) e)
            (ap (λ x. ask_remote host ports input x.1) e)

      at_input :
          (bs : List Blocker)
          → input_blockers host input ≡ bs
          → Ends s.store (after_input host ports bs input s)
      at_input (b ∷ bs) e = stays_blocked b bs s.world
      at_input [] e = at_sources (ask_sources host ports input s.world) e refl
