-- ===== src/Evidence/Tallying.antt =====
-- evidence.ts, evaluateEvidence: which observations are told apart, and which of them count.
use agx.Prelude.{
  ℕ, ◌-◌, String, Bool, true, false, not, ◌&&◌, Option, none, some, List, [], ◌∷◌, ◌++◌, any, find,
  length, leb, ltb, nat_eq, string_eq, ◌==◌, if◌then◌else◌,
}
use agx.Time.{DateParse}
use agx.Evidence.{
  EvidenceKind, EvidenceObservation, EvaluationInput, ObservationOutcome, Category, Diagnostic,
  source_for_kind, is_relevant, max_observations, max_age, input_schema, evaluator_version,
}
use agx.Evidence.Validating.{is_hex64, is_installation, is_some, validate_observation}
use agx.Evidence.Comparing.{kind_eq, source_eq, outcome_eq, same_key, same_observation}

abbrev pub diag : String → Category → Diagnostic
diag code category = record { code = code; category = category }

-- uniqueDiagnostics, after those that are there
unfoldable pub unique_diagnostics : List Diagnostic → List Diagnostic → List Diagnostic
unique_diagnostics there [] = there
unique_diagnostics there (d ∷ ds) =
    if any (λ (t : Diagnostic). t.code == d.code) there
    then unique_diagnostics there ds
    else unique_diagnostics (there ++ d ∷ []) ds

abbrev pub diag_if : Bool → String → List Diagnostic
diag_if true code = diag code Category.preflight ∷ []
diag_if false code = []

unfoldable pub invalid_diagnostics : DateParse → List EvidenceObservation → List Diagnostic
invalid_diagnostics parse [] = []
invalid_diagnostics parse (o ∷ os) =
    diag_if (not (validate_observation parse o)) "AGX-EVIDENCE-OBSERVATION-INVALID"
    ++ invalid_diagnostics parse os

-- The profile is one of the two.
unfoldable pub envelope_diagnostics : DateParse → EvaluationInput → List Diagnostic
unfolding invalid_diagnostics
envelope_diagnostics parse input =
    diag_if (not (input.schema_version == input_schema)) "AGX-EVIDENCE-SCHEMA-UNSUPPORTED"
    ++ diag_if (not (input.evaluator_version == evaluator_version))
        "AGX-EVIDENCE-EVALUATOR-UNSUPPORTED"
    ++ diag_if (not (is_installation input.installation_id)) "AGX-EVIDENCE-INSTALLATION-INVALID"
    ++ diag_if (not (is_hex64 input.deployment_digest && is_hex64 input.subject_digest))
        "AGX-EVIDENCE-SUBJECT-INCOMPLETE"
    ++ diag_if (not (is_some (parse input.evaluated_at))) "AGX-EVIDENCE-EVALUATED-AT-INVALID"
    ++ diag_if (ltb max_observations (length input.observations)) "AGX-EVIDENCE-OBSERVATION-LIMIT"
    ++ invalid_diagnostics parse input.observations

-- The observations by their keys: the first of each, those that another one contradicts, and what
-- is said of that.
pub record Identified : Type 0 where
  pub identity : List EvidenceObservation
  pub ambiguous : List EvidenceObservation
  pub diagnostics : List Diagnostic

unfoldable pub identify_at :
    Option EvidenceObservation → EvidenceObservation → Identified → Identified
identify_at none o st = record st { identity = st.identity ++ o ∷ [] }
identify_at (some previous) o st = if same_observation previous o then st else record st {
  ambiguous = o ∷ st.ambiguous;
  diagnostics = st.diagnostics ++ diag "AGX-EVIDENCE-OBSERVATION-AMBIGUOUS" Category.outcome ∷ [];
}

unfoldable pub identify : List EvidenceObservation → Identified → Identified
unfolding identify_at
identify [] st = st
identify (o ∷ os) st =
    identify os (identify_at (find (λ previous. same_key previous o) st.identity) o st)

pub data Verdict : Type 0 where
  left_out : Verdict
  flagged : Diagnostic → Verdict
  counted : Verdict

-- The comparisons of the two instants; one that is not finite compares as NaN does.
abbrev pub judge_age : Option ℕ → Option ℕ → Verdict
judge_age (some observed) (some evaluated) =
    if ltb evaluated observed
    then flagged (diag "AGX-EVIDENCE-OBSERVATION-FUTURE" Category.freshness)
    else if leb max_age (evaluated - observed)
    then flagged (diag "AGX-EVIDENCE-OBSERVATION-EXPIRED" Category.freshness)
    else counted
judge_age none (some evaluated) = counted
judge_age _ none = flagged (diag "AGX-EVIDENCE-OBSERVATION-EXPIRED" Category.freshness)

-- A JavaScript `Map` from kinds to observations, in insertion order.
pub record Bucket : Type 0 where
  pub kind : EvidenceKind
  pub values : List EvidenceObservation

unfoldable pub add_value : EvidenceObservation → List Bucket → List Bucket
add_value o [] = record { kind = o.kind; values = o ∷ [] } ∷ []
add_value o (b ∷ buckets) =
    let rest = add_value o buckets in
    if b.kind == o.kind then record b { values = b.values ++ o ∷ [] } ∷ buckets else b ∷ rest

pub record Tally : Type 0 where
  pub diagnostics : List Diagnostic
  pub buckets : List Bucket

unfoldable pub tally_at : Verdict → EvidenceObservation → Tally → Tally
tally_at left_out o t = t
tally_at (flagged d) o t = record t { diagnostics = t.diagnostics ++ d ∷ [] }
tally_at counted o t = record t { buckets = add_value o t.buckets }

module _ (parse : DateParse) (input : EvaluationInput) (now : String) where
  unfoldable pub judge : EvidenceObservation → Verdict
  judge o =
      if not (o.source == source_for_kind o.kind)
      then flagged (diag "AGX-EVIDENCE-SOURCE-MISMATCH" Category.preflight)
      else if not (is_relevant input.profile o.kind)
      then left_out
      else if not (o.installation_id == input.installation_id)
      then flagged (diag "AGX-EVIDENCE-INSTALLATION-MISMATCH" Category.outcome)
      else if not (
          o.deployment_digest == input.deployment_digest
          && o.subject_digest == input.subject_digest)
      then flagged (diag "AGX-EVIDENCE-BINDING-MISMATCH" Category.outcome)
      else if not (o.outcome == ObservationOutcome.matched)
      then flagged (diag "AGX-EVIDENCE-OBSERVATION-NOT-MATCHED" Category.outcome)
      else judge_age (parse o.observed_at) (parse now)

  unfoldable pub tally : List EvidenceObservation → List EvidenceObservation → Tally → Tally
  unfolding tally_at
  tally ambiguous [] t = t
  tally ambiguous (o ∷ os) t =
      if any (λ a. same_key a o) ambiguous
      then tally ambiguous os t
      else tally ambiguous os (tally_at (judge o) o t)
