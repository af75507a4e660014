-- ===== src/Journal/Resolve/Resolving.antt =====
-- resolveInconclusiveOperation: which resolutions are accepted, and what they change.
use agx.Prelude.{
  ℕ, ◌+◌, ◌<◌, ◌≤◌, ◌≡◌, true, [], ◌∷◌, ◌++◌, some, arith, find, Option-cases, inl, inr, ◌≢◌,
  eq_iff, String,
}
use agx.Prelude.Text.{is_hex_of}
use agx.Prelude.Outcome.{returned, thrown}
use agx.Time.{DateParse}
use agx.Journal.{Step, JournalPhase, Journal, Resolution, matched, is_open}
use agx.Journal.Resolve.{
  resolve_inconclusive, binds, is_fresh, record_resolution, reopen, past, resolution_max_age,
}
use agx.Journal.Numbering.{NumberedFrom, change_first, update_at-eq-change_first}

-- What an accepted resolution shows: it names the open step of this uncertain operation, and was
-- observed no later than now and less than the maximal age ago.
pub record Settles (parse : DateParse) (r : Journal) (res : Resolution) (now : String)
    : Type 0 where
  pub uncertain : r.phase ≡ JournalPhase.inconclusive
  pub step : Step
  pub is_step : find is_open r.steps ≡ some step
  pub same_operation : res.operation_id ≡ r.operation_id
  pub same_deployment : res.deployment_id ≡ r.deployment_id
  pub same_number : res.sequence ≡ step.sequence
  pub same_resource : res.resource ≡ step.resource
  pub digest : is_hex_of 64 res.fingerprint ≡ true
  pub observed : ℕ
  pub is_observed : parse res.observed_at ≡ some observed
  pub time : ℕ
  pub is_time : parse now ≡ some time
  pub not_later : observed ≤ time
  pub recent : time < observed + resolution_max_age

module _ (parse : DateParse) (r : Journal) (res : Resolution) (now : String) where
  pub resolve-Settles :
      (r' : Journal) → resolve_inconclusive parse r res now ≡ returned r' → Settles parse r res now
  unfolding resolve_inconclusive binds is_fresh
  resolve-Settles r' e = elim (Option-cases (find is_open r.steps)) [
    | inl nothing ↦ absurd (ground arith)
    | inr (step, found) ↦ elim (Option-cases (parse res.observed_at)) [
      | inl no_date ↦ absurd (ground arith)
      | inr (observed, is_observed) ↦ elim (Option-cases (parse now)) [
        | inl no_time ↦ absurd (ground arith)
        | inr (time, is_time) ↦ record {
          uncertain = ground arith;
          step = step;
          is_step = found;
          same_operation = ground (arith, eq_iff res.operation_id r.operation_id);
          same_deployment = ground (arith, eq_iff res.deployment_id r.deployment_id);
          same_number = ground arith;
          same_resource = ground (arith, eq_iff res.resource step.resource);
          digest = ground arith;
          observed = observed;
          is_observed = is_observed;
          time = time;
          is_time = is_time;
          not_later = ground arith;
          recent = ground arith;
        }
      ]
    ]
  ]

  abbrev pub noted : Journal
  noted = record r { resolutions = some (past r.resolutions ++ res ∷ []) }

  pub resolve-effect :
      (r' : Journal) (step : Step)
      → resolve_inconclusive parse r res now ≡ returned r'
      → find is_open r.steps ≡ some step
      → r' ≡ record_resolution res.outcome step.sequence noted
  unfolding resolve_inconclusive
  resolve-effect r' step e f = ground arith

-- On a numbered journal, an accepted resolution is logged; if it matched, the open step is pending
-- again and the operation wants to be resumed; otherwise no step changes and it wants cleanup.
pub resolve_lem :
    (parse : DateParse) (r : Journal) (res : Resolution) (now : String) (r' : Journal)
    → NumberedFrom 1 r.steps
    → resolve_inconclusive parse r res now ≡ returned r'
    → Settles parse r res now
      × (r'.resolutions ≡ some (past r.resolutions ++ res ∷ []))
      × (res.outcome ≡ matched
          → (r'.steps ≡ change_first is_open reopen r.steps)
            × (r'.phase ≡ JournalPhase.needs_resume))
      × (res.outcome ≢ matched
          → (r'.steps ≡ r.steps) × (r'.phase ≡ JournalPhase.needs_manual_cleanup))
unfolding record_resolution
resolve_lem parse r res now r' numbered e =
    let s = resolve-Settles parse r res now r' e in
    let done = resolve-effect parse r res now r' s.step e s.is_step in
    let one = update_at-eq-change_first is_open reopen 1 r.steps s.step numbered s.is_step in
    (s, ground arith, ground arith, ground arith)

-- An accepted resolution cannot be followed by another one: the operation must first run again.
pub resolve-once :
    (parse : DateParse) (r : Journal) (res : Resolution) (now : String) (r' : Journal)
    → resolve_inconclusive parse r res now ≡ returned r'
    → (res' : Resolution) (now' : String)
    → resolve_inconclusive parse r' res' now' ≡ thrown "invalid operation resolution"
unfolding resolve_inconclusive record_resolution
resolve-once parse r res now r' e res' now' =
    let s = resolve-Settles parse r res now r' e in
    let done = resolve-effect parse r res now r' s.step e s.is_step in ground arith
