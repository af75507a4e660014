-- ===== src/Operation/Tests.antt =====
-- A run of an operation to its success, and the evidence for it.
use agx.Prelude.{◌≡◌, refl, none, [], ◌∷◌}
use agx.Prelude.Text.{is_blank, trim, trim_start, trim_end}
use agx.Prelude.Checked.{ok}
use agx.Deployment.{source_fits, starts_with, validate_external_evidence_observation}
use agx.Deployment.Tests.{clock, proof}
use agx.Operation.{
  OperationPhase, OperationOutcome, OperationStatus, started, process_observed, observed,
  evidence_observed, create_operation_status, transition_operation,
}
use agx.Operation.Reaching.{Moves, transition_operation_lem}
use agx.Operation.Settling.{Runs, here, next, AllEvidence, Runs-settles}

abbrev succeeded : OperationStatus
succeeded = record {
  operation_id = "o1";
  deployment_id = "d1";
  phase = OperationPhase.succeeded;
  reason = none;
  next_action = "none";
}

abbrev shown : OperationStatus
shown = record succeeded { next_action = "evaluate-evidence-profile" }

runs :
    Runs clock
      (create_operation_status "o1" "d1")
      ((observed OperationOutcome.succeeded, "t2")
        ∷ (process_observed, "t2")
        ∷ (started, "t1")
        ∷ [])
      succeeded
unfolding transition_operation create_operation_status
runs = next _ "t2" (next process_observed "t2" (next started "t1" here refl) refl) refl

shows : transition_operation clock succeeded (evidence_observed proof) "t3" ≡ ok shown
unfolding transition_operation validate_external_evidence_observation is_blank trim trim_start
    trim_end source_fits starts_with
shows = refl

transition_operation_example : Moves clock succeeded (evidence_observed proof) "t3" shown
transition_operation_example =
    (transition_operation_lem clock succeeded (evidence_observed proof) "t3").0 shown shows

Runs-settles_example :
    (shown.phase ≡ OperationPhase.succeeded) × AllEvidence ((evidence_observed proof, "t3") ∷ [])
Runs-settles_example =
    (Runs-settles {parse = clock} {s = succeeded} {t = shown}
        (next (evidence_observed proof) "t3" here shows)).1
      refl
