-- ===== src/Operation.antt =====
-- packages/control-plane/src/domain/operation.ts: the status of an operation and its transitions.
pub mod Reaching
pub mod Settling
pub mod Tests
use agx.Prelude.{String, Option, none, some}
use agx.Prelude.Checked.{Checked, ok, refused}
use agx.Time.{DateParse}
use agx.Deployment.{ExternalEvidenceObservation, validate_external_evidence_observation}

pub data OperationPhase : Type 0 where
  prepared applying observing succeeded degraded failed cancelled inconclusive : OperationPhase
  needs_resume needs_manual_cleanup verified : OperationPhase

pub data OperationOutcome : Type 0 where
  succeeded degraded failed : OperationOutcome

pub data OperationEvent : Type 0 where
  started process_observed : OperationEvent
  observed : OperationOutcome → OperationEvent
  failed cancelled remote_uncertain : String → OperationEvent
  resumed : OperationEvent
  manual_cleanup_required : String → OperationEvent
  evidence_observed : ExternalEvidenceObservation → OperationEvent
  verified : OperationEvent

pub record OperationStatus : Type 0 where
  pub operation_id : String
  pub deployment_id : String
  pub phase : OperationPhase
  pub reason : Option String
  pub next_action : String

unfoldable pub create_operation_status : String → String → OperationStatus
create_operation_status operation_id deployment_id = record {
  operation_id = operation_id;
  deployment_id = deployment_id;
  phase = OperationPhase.prepared;
  reason = none;
  next_action = "start-operation";
}

abbrev pub outcome_phase : OperationOutcome → OperationPhase
outcome_phase OperationOutcome.succeeded = OperationPhase.succeeded
outcome_phase OperationOutcome.degraded = OperationPhase.degraded
outcome_phase OperationOutcome.failed = OperationPhase.failed

abbrev outcome_action : OperationOutcome → String
outcome_action OperationOutcome.succeeded = "none"
outcome_action _ = "inspect-diagnostics"

fail : OperationStatus → String → Checked OperationStatus
fail status reason = ok (record status {
  phase = OperationPhase.failed;
  reason = some reason;
  next_action = "inspect-diagnostics";
})

cancel : OperationStatus → String → Checked OperationStatus
cancel status reason =
    ok (record status {
      phase = OperationPhase.cancelled;
      reason = some reason;
      next_action = "none";
    })

suspend : OperationStatus → String → Checked OperationStatus
suspend status reason = ok (record status {
  phase = OperationPhase.inconclusive;
  reason = some reason;
  next_action = "observe-remote-state";
})

want_cleanup : OperationStatus → String → Checked OperationStatus
want_cleanup status reason = ok (record status {
  phase = OperationPhase.needs_manual_cleanup;
  reason = some reason;
  next_action = "manual-cleanup";
})

evidence_checked : Checked {0} Unit → OperationStatus → Checked OperationStatus
evidence_checked (refused reason) status = refused reason
evidence_checked (ok u) status = ok (record status { next_action = "evaluate-evidence-profile" })

module _ (parse : DateParse) where
  observe_evidence :
      OperationStatus → ExternalEvidenceObservation → String → Checked OperationStatus
  unfolding evidence_checked
  observe_evidence status proof now =
      evidence_checked
        (validate_external_evidence_observation parse proof status.deployment_id status.operation_id
          now)
        status

  transition_at :
      OperationPhase → OperationStatus → OperationEvent → String → Checked OperationStatus
  unfolding fail cancel suspend want_cleanup
  transition_at OperationPhase.prepared status started now =
      ok (record status { phase = OperationPhase.applying; next_action = "observe-operation" })
  transition_at OperationPhase.applying status process_observed now =
      ok (record status { phase = OperationPhase.observing; next_action = "record-outcome" })
  transition_at OperationPhase.observing status (observed outcome) now =
      ok (record status { phase = outcome_phase outcome; next_action = outcome_action outcome })
  transition_at OperationPhase.applying status (OperationEvent.failed reason) now =
      fail status reason
  transition_at OperationPhase.observing status (OperationEvent.failed reason) now =
      fail status reason
  transition_at OperationPhase.prepared status (OperationEvent.cancelled reason) now =
      cancel status reason
  transition_at OperationPhase.applying status (OperationEvent.cancelled reason) now =
      cancel status reason
  transition_at OperationPhase.observing status (OperationEvent.cancelled reason) now =
      cancel status reason
  transition_at OperationPhase.applying status (remote_uncertain reason) now = suspend status reason
  transition_at OperationPhase.observing status (remote_uncertain reason) now =
      suspend status reason
  transition_at OperationPhase.inconclusive status resumed now =
      ok (record status { phase = OperationPhase.applying; next_action = "observe-remote-state" })
  transition_at OperationPhase.inconclusive status (manual_cleanup_required reason) now =
      want_cleanup status reason
  transition_at OperationPhase.failed status (manual_cleanup_required reason) now =
      want_cleanup status reason
  transition_at OperationPhase.succeeded status (evidence_observed proof) now =
      observe_evidence status proof now
  transition_at OperationPhase.degraded status (evidence_observed proof) now =
      observe_evidence status proof now
  transition_at _ status OperationEvent.verified now = refused "verified-requires-external-evidence"
  transition_at _ status event now = refused "invalid-transition"

  unfoldable pub transition_operation :
      OperationStatus → OperationEvent → String → Checked OperationStatus
  unfolding observe_evidence transition_at
  transition_operation status event now = transition_at status.phase status event now
