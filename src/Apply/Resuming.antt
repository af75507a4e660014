-- ===== src/Apply/Resuming.antt =====
-- deployment-apply.ts: after an uncertain step is resolved, a second run goes on where the first
-- one stopped.
use agx.Prelude.{String, ◌≡◌, refl, sym, ap, subst, ◌∙◌, true, List, [], ◌∷◌, ◌++◌, arith}
use agx.Prelude.Dict.{put, get-put_self}
use agx.Prelude.Outcome.{returned}
use agx.Time.{DateParse}
use agx.Journal.{Step, Journal, Resolution, matched, is_open}
use agx.Journal.Reasons.{reason_ok}
use agx.Journal.Resolve.{resolve_inconclusive, reopen}
use agx.Journal.Resolve.Resolving.{resolve_lem}
use agx.Journal.Numbering.{NumberedFrom-of_planned, change_first}
use agx.Journal.Front.{AllMiss, AllSettled, change_first-front, All-change_first}
use agx.Journal.History.{Edits-Continues, here, next, resolved}
use agx.Apply.{State, apply_deployment_plan}
use agx.Apply.Remote.{Targets, Ports}
use agx.Apply.Spec.{run_plan}
use agx.Apply.Plans.{run_plan-settled}
use agx.Apply.Refinement.{ended, AllReasoned}
use agx.Apply.Correct.{IsReady, started, start_of, applied, apply_refines}

AllMiss-AllSettled : (steps : List Step) → AllMiss is_open steps → AllSettled steps
AllMiss-AllSettled [] h = tt
AllMiss-AllSettled (s ∷ steps) (e, h) = (ground arith, AllMiss-AllSettled steps h)

module _ {W R P : Type 0} (targets : Targets R P) (ports : Ports W R P) (parse : DateParse)
    (s : State W) (op op' : Journal) (res : Resolution) (now : String) where
  resolved-IsReady :
      IsReady s op
      → resolve_inconclusive parse op res now ≡ returned op'
      → res.outcome ≡ matched
      → IsReady (record s { store = put op'.operation_id op' s.store }) op'
  unfolding reason_ok
  resolved-IsReady ready e m =
      let c = Edits-Continues ready.numbered (next here (resolved res now e)) in
      let effect = (resolve_lem parse op res now op' ready.numbered e).2 m in
      record {
        stored = get-put_self op'.operation_id op' s.store;
        numbered = NumberedFrom-of_planned 1 op'.steps op.steps c.same_plan ready.numbered;
        reasoned = subst AllReasoned (sym effect.0) (
            All-change_first is_open (λ x. reason_ok x.reason ≡ true) reopen op.steps (λ x h. refl)
              ready.reasoned);
      }

  -- A ready operation stopped at an uncertain step, with nothing open before it, is resolved by a
  -- matching observation: applying it again runs that step and those after it, and neither tries
  -- nor changes a step before it.
  pub apply_resumes :
      (before : List Step) (p : Step) (after : List Step)
      → IsReady s op
      → op.steps ≡ before ++ p ∷ after
      → AllMiss is_open before
      → is_open p ≡ true
      → resolve_inconclusive parse op res now ≡ returned op'
      → res.outcome ≡ matched
      → let s' = record s { store = put op'.operation_id op' s.store } in
        apply_deployment_plan targets ports op'.operation_id s'
        ≡ ended s' (started op') before (run_plan targets ports (reopen p ∷ after) s.world)
  apply_resumes before p after ready split closed open_step e m =
      let s' : State W = record s { store = put op'.operation_id op' s.store } in
      let effect = (resolve_lem parse op res now op' ready.numbered e).2 m in
      let front : op'.steps ≡ before ++ reopen p ∷ after =
        effect.0
        ∙ ap (change_first is_open reopen) split
        ∙ change_first-front is_open reopen before p after closed open_step in
      apply_refines targets ports s' op' (resolved-IsReady ready e m)
      ∙ ap (λ phase. applied targets ports s' op' (start_of phase op')) effect.1
      ∙ ap (λ steps. ended s' (started op') [] (run_plan targets ports steps s.world)) front
      ∙ ap (ended s' (started op') []) (
          run_plan-settled targets ports before (reopen p ∷ after) s.world
            (AllMiss-AllSettled before closed))
