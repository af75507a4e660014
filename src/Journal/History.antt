-- ===== src/Journal/History.antt =====
-- operation-journal.ts: what every sequence of edits keeps of a journal.
use agx.Prelude.{String, ◌≡◌, refl, sym, ap, ◌∙◌, Option, List, [], ◌∷◌, ◌++◌, map, arith}
use mathlib.Core.List.{append-nil, append_assoc}
use agx.Prelude.Outcome.{returned}
use agx.Time.{DateParse}
use agx.Journal.{Step, Journal, Resolution, is_pending, is_open}
use agx.Journal.Append.{append_step, settle}
use agx.Journal.Append.Settling.{append_step-settle_iff}
use agx.Journal.Resolve.{resolve_inconclusive, past, reopen, record_resolution}
use agx.Journal.Resolve.Resolving.{resolve_lem, resolve-Settles, resolve-effect}
use agx.Journal.Run.{start_journal, finish_journal, FinishPhase}
use agx.Journal.Numbering.{
  NumberedFrom, planned, find-change, NumberedFrom-of_planned, update_at-eq-change_first,
}

-- One accepted call of an operation of the module.
pub data Edit (parse : DateParse) (r r' : Journal) : Type 0 where
  appended : (step : Step) → append_step r step ≡ returned r' → Edit parse r r'
  started : start_journal r ≡ returned r' → Edit parse r r'
  resolved :
      (res : Resolution) (now : String)
      → resolve_inconclusive parse r res now ≡ returned r'
      → Edit parse r r'
  finished :
      (phase : FinishPhase) (reason : Option String)
      → finish_journal r phase reason ≡ returned r'
      → Edit parse r r'

pub data Edits (parse : DateParse) (r : Journal) : Journal → Type 0 where
  here : Edits parse r r
  next : {s t : Journal} → Edits parse r s → Edit parse s t → Edits parse r t

-- The later journal is about the same plan, and its log of resolutions has only grown.
pub record Continues (r r' : Journal) : Type 0 where
  pub same_operation : r'.operation_id ≡ r.operation_id
  pub same_deployment : r'.deployment_id ≡ r.deployment_id
  pub same_revision : r'.revision_id ≡ r.revision_id
  pub same_plan : map planned r'.steps ≡ map planned r.steps
  pub added : List Resolution
  pub log : past r'.resolutions ≡ past r.resolutions ++ added

unlogged :
    (r r' : Journal)
    → r'.resolutions ≡ r.resolutions
    → past r'.resolutions ≡ past r.resolutions ++ []
unlogged r r' e = ap past e ∙ sym (append-nil (past r.resolutions))

append-Continues :
    (r r' : Journal) (step : Step)
    → NumberedFrom 1 r.steps
    → append_step r step ≡ returned r'
    → Continues r r'
unfolding settle
append-Continues r r' step numbered e =
    let (a, effect) = (append_step-settle_iff r r' step numbered).0 e in
    let same = find-change is_pending (λ _. step) r.steps a.next a.is_next a.as_planned in
    record {
      same_operation = ground arith;
      same_deployment = ground arith;
      same_revision = ground arith;
      same_plan = ground arith;
      added = [];
      log = unlogged r r' (ground arith);
    }

start-Continues : (r r' : Journal) → start_journal r ≡ returned r' → Continues r r'
unfolding start_journal
start-Continues r r' e = record {
  same_operation = ground arith;
  same_deployment = ground arith;
  same_revision = ground arith;
  same_plan = ground arith;
  added = [];
  log = unlogged r r' (ground arith);
}

finish-Continues :
    (r r' : Journal) (phase : FinishPhase) (reason : Option String)
    → finish_journal r phase reason ≡ returned r'
    → Continues r r'
unfolding finish_journal
finish-Continues r r' phase reason e = record {
  same_operation = ground arith;
  same_deployment = ground arith;
  same_revision = ground arith;
  same_plan = ground arith;
  added = [];
  log = unlogged r r' (ground arith);
}

resolve-Continues :
    (parse : DateParse) (r r' : Journal) (res : Resolution) (now : String)
    → NumberedFrom 1 r.steps
    → resolve_inconclusive parse r res now ≡ returned r'
    → Continues r r'
unfolding record_resolution
resolve-Continues parse r r' res now numbered e =
    let s = resolve-Settles parse r res now r' e in
    let effect = resolve-effect parse r res now r' s.step e s.is_step in
    let one = update_at-eq-change_first is_open reopen 1 r.steps s.step numbered s.is_step in
    let same = find-change is_open reopen r.steps s.step s.is_step refl in
    record {
      same_operation = ground arith;
      same_deployment = ground arith;
      same_revision = ground arith;
      same_plan = ground arith;
      added = res ∷ [];
      log = ap past (resolve_lem parse r res now r' numbered e).1;
    }

Edit-Continues :
    {parse : DateParse} {r r' : Journal} → NumberedFrom 1 r.steps → Edit parse r r' → Continues r r'
Edit-Continues {r} {r'} n (appended step e) = append-Continues r r' step n e
Edit-Continues {r} {r'} n (started e) = start-Continues r r' e
Edit-Continues {parse} {r} {r'} n (resolved res now e) = resolve-Continues parse r r' res now n e
Edit-Continues {r} {r'} n (finished phase reason e) = finish-Continues r r' phase reason e

Continues-trans : {r s t : Journal} → Continues r s → Continues s t → Continues r t
Continues-trans {r} {s} {t} c d = record {
  same_operation = d.same_operation ∙ c.same_operation;
  same_deployment = d.same_deployment ∙ c.same_deployment;
  same_revision = d.same_revision ∙ c.same_revision;
  same_plan = d.same_plan ∙ c.same_plan;
  added = c.added ++ d.added;
  log = d.log ∙ ap (λ l. l ++ d.added) c.log ∙ append_assoc (past r.resolutions) c.added d.added;
}

-- Whatever edits are accepted, a numbered journal keeps its identifiers and its plan (the numbers,
-- kinds and resources of its steps), and no resolution leaves its log.
pub Edits-Continues :
    {parse : DateParse} {r r' : Journal}
    → NumberedFrom 1 r.steps
    → Edits parse r r'
    → Continues r r'
Edits-Continues n here = record {
  same_operation = refl;
  same_deployment = refl;
  same_revision = refl;
  same_plan = refl;
  added = [];
  log = sym (append-nil _);
}
Edits-Continues {r} n (next {s} edits edit) =
    let c = Edits-Continues n edits in
    Continues-trans c
      (Edit-Continues (NumberedFrom-of_planned 1 s.steps r.steps c.same_plan n) edit)
