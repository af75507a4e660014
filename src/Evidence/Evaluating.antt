-- ===== src/Evidence/Evaluating.antt =====
-- evidence.ts, evaluateEvidence: what the observations show of a deployment.
pub mod Judging
pub mod Silence
pub mod Members
pub mod Agreeing
pub mod Verified
use agx.Prelude.{
  ℕ, suc, ◌-◌, String, Bool, true, false, not, ◌&&◌, ◌||◌, Option, none, some, List, [], ◌∷◌, ◌++◌,
  map, any, all, find, length, leb, ltb, StrictEq, nat_eq, string_eq, ◌==◌, if◌then◌else◌,
}
use agx.Prelude.Optional.{or_else}
use agx.Time.{DateParse}
use agx.Evidence.{
  EvidenceKind, EvidenceObservation, EvaluationInput, ObservationOutcome, EvidencePhase, Category,
  Diagnostic, RequirementResult, ObservationRef, EvidenceReceipt, Requirement, github_requirements,
  requirement_set, source_for_kind, requires_revision, is_relevant, max_observations, max_age,
  input_schema, evaluator_version,
}
use agx.Evidence.Validating.{is_hex64, is_installation, is_some, validate_observation}
use agx.Evidence.Comparing.{kind_eq, source_eq, outcome_eq, same_key, same_observation}
use agx.Evidence.Tallying.{
  Bucket, Identified, Tally, Verdict, add_value, counted, diag, diag_if, envelope_diagnostics,
  flagged, identify, identify_at, invalid_diagnostics, judge, judge_age, left_out, tally, tally_at,
  unique_diagnostics,
}

abbrev pub is_single : List EvidenceObservation → Bool
is_single [] = true
is_single (o ∷ []) = true
is_single (o ∷ p ∷ os) = false

-- The loop that drops a kind with several observations.
unfoldable pub drop_ambiguous : List Bucket → Tally
drop_ambiguous [] = record { diagnostics = []; buckets = [] }
drop_ambiguous (b ∷ buckets) =
    let rest = drop_ambiguous buckets in
    if is_single b.values then record rest { buckets = b ∷ rest.buckets } else record rest {
      diagnostics = diag "AGX-EVIDENCE-OBSERVATION-AMBIGUOUS" Category.outcome ∷ rest.diagnostics;
    }

abbrev pub revision_of : List EvidenceObservation → List String
revision_of (o ∷ []) = or_else o.ref.revision "" ∷ []
revision_of _ = []

unfoldable pub revisions : List Bucket → List String
revisions [] = []
revisions (b ∷ buckets) =
    let rest = revisions buckets in
    if requires_revision b.kind then revision_of b.values ++ rest else rest

-- revisionMismatch: that a revision differs from the first one
abbrev pub mismatched : List String → Bool
mismatched [] = false
mismatched (r ∷ rs) = any (λ s. not (s == r)) rs

-- `validByKind.get(kind)?.[0]`
abbrev pub head_of : List EvidenceObservation → Option EvidenceObservation
head_of [] = none
head_of (o ∷ os) = some o

abbrev values_of : Option Bucket → Option EvidenceObservation
values_of none = none
values_of (some b) = head_of b.values

abbrev pub value_of : EvidenceKind → List Bucket → Option EvidenceObservation
value_of kind buckets = values_of (find (λ (b : Bucket). b.kind == kind) buckets)

abbrev pub usable_at : Bool → Option EvidenceObservation → Bool
usable_at mismatch none = false
usable_at mismatch (some o) = not mismatch || not (requires_revision o.kind)

unfoldable pub select : List EvidenceKind → List Bucket → Bool → Option EvidenceObservation
select [] buckets mismatch = none
select (kind ∷ kinds) buckets mismatch =
    let rest = select kinds buckets mismatch in
    if usable_at mismatch (value_of kind buckets) then value_of kind buckets else rest

pub record Findings : Type 0 where
  pub satisfied : List RequirementResult
  pub missing : List RequirementResult
  pub next_steps : List String
  pub evidence : List ObservationRef

abbrev result_of : Requirement → RequirementResult
result_of r = record { id = r.id; code = r.code }

abbrev ref_of : EvidenceObservation → ObservationRef
ref_of o = record {
  source = o.source;
  kind = o.kind;
  fingerprint = o.fingerprint;
  ref = o.ref;
  observed_at = o.observed_at;
}

find_at : Option EvidenceObservation → Requirement → Findings → Findings
find_at none r rest = record rest {
  missing = result_of r ∷ rest.missing;
  next_steps = r.next ∷ rest.next_steps;
}
find_at (some o) r rest = record rest {
  satisfied = result_of r ∷ rest.satisfied;
  evidence = ref_of o ∷ rest.evidence;
}

unfoldable pub find_evidence : List Requirement → List Bucket → Bool → Findings
unfolding find_at
find_evidence [] buckets mismatch = record {
  satisfied = [];
  missing = [];
  next_steps = [];
  evidence = [];
}
find_evidence (r ∷ requirements) buckets mismatch =
    find_at (select r.kinds buckets mismatch) r (find_evidence requirements buckets mismatch)

abbrev category_tag : Category → ℕ
category_tag Category.preflight = 0
category_tag Category.outcome = 1
category_tag Category.freshness = 2

-- some diagnostic of the category
abbrev pub has : Category → List Diagnostic → Bool
has c = any (λ (d : Diagnostic). category_tag d.category == category_tag c)

abbrev end_phase : List RequirementResult → EvidencePhase
end_phase [] = EvidencePhase.verified
end_phase (r ∷ missing) = EvidencePhase.awaiting_verification

-- The source sets `outcomeBlocked` and `freshnessBlocked` exactly where it adds a diagnostic of that
-- category.
unfoldable pub phase_of : List Diagnostic → List RequirementResult → EvidencePhase
phase_of diagnostics missing =
    if has Category.preflight (unique_diagnostics [] diagnostics)
    then EvidencePhase.blocked_preflight
    else if has Category.outcome diagnostics
    then EvidencePhase.blocked_outcome
    else if has Category.freshness diagnostics
    then EvidencePhase.blocked_freshness
    else end_phase missing

abbrev pub mismatch_diagnostic : Bool → List Diagnostic
mismatch_diagnostic true = diag "AGX-EVIDENCE-REVISION-MISMATCH" Category.outcome ∷ []
mismatch_diagnostic false = []

unfoldable pub insert_by :
    (EvidenceObservation → EvidenceObservation → Bool)
    → EvidenceObservation
    → List EvidenceObservation
    → List EvidenceObservation
insert_by before o [] = o ∷ []
insert_by before o (p ∷ os) =
    let rest = insert_by before o os in if before p o then p ∷ rest else o ∷ p ∷ os

unfoldable pub sort_by :
    (EvidenceObservation → EvidenceObservation → Bool)
    → List EvidenceObservation
    → List EvidenceObservation
sort_by before [] = []
sort_by before (o ∷ os) = insert_by before o (sort_by before os)

-- `before` is the order of the observations' texts by `localeCompare`, which the engine's locale
-- decides.
module _ (parse : DateParse) (before : EvidenceObservation → EvidenceObservation → Bool) where
  -- what follows the check of the envelope
  unfoldable pub assess : EvaluationInput → String → EvidenceReceipt
  assess input now =
      let known =
        identify (sort_by before input.observations)
          (record { identity = []; ambiguous = []; diagnostics = [] }) in
      let tallied =
        tally parse input now known.ambiguous known.identity
          (record { diagnostics = known.diagnostics; buckets = [] }) in
      let kept = drop_ambiguous tallied.buckets in
      let mismatch = mismatched (revisions kept.buckets) in
      let found = find_evidence (requirement_set input.profile) kept.buckets mismatch in
      let diagnostics = tallied.diagnostics ++ kept.diagnostics ++ mismatch_diagnostic mismatch in
      record {
        phase = phase_of diagnostics found.missing;
        profile = input.profile;
        installation_id = input.installation_id;
        deployment_digest = input.deployment_digest;
        subject_digest = input.subject_digest;
        evaluated_at = now;
        satisfied = found.satisfied;
        missing = found.missing;
        diagnostics = unique_diagnostics [] diagnostics;
        next_steps = found.next_steps;
        evidence = found.evidence;
      }

  evaluate_at : List Diagnostic → EvaluationInput → String → EvidenceReceipt
  evaluate_at [] input now = assess input now
  evaluate_at (d ∷ ds) input now = record {
    phase = EvidencePhase.blocked_preflight;
    profile = input.profile;
    installation_id = input.installation_id;
    deployment_digest = input.deployment_digest;
    subject_digest = input.subject_digest;
    evaluated_at = now;
    satisfied = [];
    missing = map result_of (requirement_set input.profile);
    diagnostics = unique_diagnostics [] (d ∷ ds);
    next_steps = map (λ (r : Requirement). r.next) (requirement_set input.profile);
    evidence = [];
  }

  -- The value is an object with a list of observations.
  unfoldable pub evaluate_evidence : EvaluationInput → String → EvidenceReceipt
  unfolding evaluate_at
  evaluate_evidence input now = evaluate_at (envelope_diagnostics parse input) input now
