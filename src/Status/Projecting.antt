-- ===== src/Status/Projecting.antt =====
-- domain/status.ts, projectStatus: one phase, and what is said of it.
use agx.Prelude.{String, List, [], ◌∷◌, nat_eq, string_eq}
use agx.Config.Compare.{sort_names}
use agx.Queries.{unique_ids}
use agx.Status.{UnifiedPhase, ProjectionInput, UnifiedStatus}
use agx.Status.Readbacks.{readback_summaries}
use agx.Status.Diagnostics.{diagnostics_of, missing_of, revision_of}
use agx.Status.Signals.{phase_of, signals_of}

-- NEXT_ACTIONS
abbrev pub next_action_of : UnifiedPhase → String
next_action_of UnifiedPhase.preflight_blocked = "resolve-preflight"
next_action_of UnifiedPhase.manual_cleanup = "perform-manual-cleanup"
next_action_of UnifiedPhase.inconclusive = "observe-remote-state"
next_action_of UnifiedPhase.needs_resume = "resume-operation"
next_action_of UnifiedPhase.drifted = "reconcile-resources"
next_action_of UnifiedPhase.failed = "inspect-diagnostics"
next_action_of UnifiedPhase.cancelled = "start-new-operation"
next_action_of UnifiedPhase.incomplete = "inspect-diagnostics"
next_action_of UnifiedPhase.applying = "observe-resources"
next_action_of UnifiedPhase.observing = "record-outcome"
next_action_of UnifiedPhase.awaiting = "complete-first-use"
next_action_of UnifiedPhase.configured = "none"
next_action_of UnifiedPhase.succeeded = "none"
next_action_of UnifiedPhase.verified = "none"

-- uniqueSorted
abbrev pub unique_sorted : List String → List String
unique_sorted values = sort_names (unique_ids [] values)

unfoldable pub project_status : ProjectionInput → UnifiedStatus
project_status input =
    let read = readback_summaries input.readbacks in
    let diagnostics = diagnostics_of input read.resources read.diagnostics in
    let phase = phase_of (signals_of input read.resources diagnostics) in
    record {
      phase = phase;
      deployment_id = input.deployment.deployment_id;
      operation_id = input.operation.operation_id;
      revision_id = revision_of input.active_revision;
      resources = read.resources;
      diagnostics = unique_sorted diagnostics;
      missing = unique_sorted (missing_of input read.resources);
      next_actions = next_action_of phase ∷ [];
    }
