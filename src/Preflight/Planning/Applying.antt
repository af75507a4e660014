-- ===== src/Preflight/Planning/Applying.antt =====
-- deployment-preflight.ts and deployment-apply.ts: a plan that was found ready, carried out.
use agx.Prelude.{ℕ, suc, ◌≡◌, refl, sym, subst, List, [], ◌∷◌, inr}
use agx.Prelude.Dict.{put, get-put_self}
use agx.Prelude.Outcome.{Outcome, returned}
use agx.Journal.{Journal, PlanStep}
use agx.Journal.Plan.Realising.{pending_steps, pending_steps-NumberedFrom}
use agx.Journal.Reasons.{reason_ok}
use agx.JournalStore.{Store}
use agx.Apply.{State, ApplyResult, apply_deployment_plan}
use agx.Apply.Remote
use agx.Apply.Remote.{Targets}
use agx.Apply.Plans.{AllFresh}
use agx.Apply.Refinement.{AllReasoned}
use agx.Apply.Correct.{IsReady}
use agx.Apply.Outcomes.{Ran, apply-Ran}
use agx.Preflight.{Input, Host, build_plan_input}
use agx.Preflight.Asking.{Ports}
use agx.Preflight.Planning.{Result, ready, prepare_deployment_plan}
use agx.Preflight.Planning.Deciding.{
  Ends, stays_blocked, is_ready, is_taken, planned, preflight_lem,
}

pending_steps-AllFresh : (n : ℕ) (ps : List PlanStep) → AllFresh (pending_steps n ps)
pending_steps-AllFresh n [] = tt
pending_steps-AllFresh n (p ∷ ps) = (inr refl, pending_steps-AllFresh (suc n) ps)

pending_steps-AllReasoned : (n : ℕ) (ps : List PlanStep) → AllReasoned (pending_steps n ps)
unfolding reason_ok
pending_steps-AllReasoned n [] = tt
pending_steps-AllReasoned n (p ∷ ps) = (refl, pending_steps-AllReasoned (suc n) ps)

module _ {W D : Type 0} (host : Host) (ports : Ports W D) (input : Input D) where
  -- A plan that is returned as ready is the one that was planned, and is stored.
  stored_plan :
      (m : Store) (x : Outcome Result × State W) (plan : Journal) (s' : State W)
      → Ends host ports input m x
      → x ≡ (returned (ready plan), s')
      → (plan ≡ planned host ports input)
        × (s'.store ≡ put input.operation_id (planned host ports input) m)
  stored_plan m _ plan s' (stays_blocked b bs w) e = absurd (cc)
  stored_plan m _ plan s' (is_taken w r found) e = absurd (cc)
  stored_plan m _ plan s' (is_ready w unblocked cleared free) e = (cc, cc)

  planned-IsReady :
      (m : Store) (s' : State W)
      → s'.store ≡ put input.operation_id (planned host ports input) m
      → IsReady s' (planned host ports input)
  unfolding build_plan_input
  planned-IsReady m s' e = record {
    stored = rw e (get-put_self input.operation_id (planned host ports input) m);
    numbered = pending_steps-NumberedFrom 1 _;
    reasoned = pending_steps-AllReasoned 1 _;
  }

  -- A plan that was found ready can be carried out at once, and that ends: the operation that is
  -- returned is stored, has the planned steps, and either all of them have succeeded, or one was
  -- tried and failed after those before it had succeeded, and those after it are still pending.
  pub ready_runs :
      {R P : Type 0} (targets : Targets R P) (remote : Remote.Ports W R P) (s s' : State W)
      (plan : Journal)
      → prepare_deployment_plan host ports input s ≡ (returned (ready plan), s')
      → (r : ApplyResult) × (s'' : State W) × (apply_deployment_plan targets remote
            input.operation_id s'
          ≡ (returned r, s''))
        × Ran s' plan r s''
  unfolding build_plan_input
  ready_runs targets remote s s' plan e =
      let (same, stored) = stored_plan s.store _ plan s' (preflight_lem host ports input s) e in
      subst
        (λ (p : Journal).
          (r : ApplyResult) × (s'' : State W) × (apply_deployment_plan targets remote
              input.operation_id s'
            ≡ (returned r, s''))
          × Ran s' p r s'')
        (sym same)
        (apply-Ran targets remote s' (planned host ports input) _
          (planned-IsReady s.store s' stored) (pending_steps-AllFresh 1 _) refl)
