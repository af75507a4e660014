-- ===== src/Activation/Names.antt =====
-- activation.ts, LaunchPhase and ObservedOutcome: the texts that the source's values are.
use agx.Prelude.{String}
use agx.Activation.{LaunchPhase, ObservedOutcome}

abbrev pub phase_text : LaunchPhase → String
phase_text LaunchPhase.prepared = "prepared"
phase_text LaunchPhase.awaiting_confirmation = "awaiting-confirmation"
phase_text LaunchPhase.applying = "applying"
phase_text LaunchPhase.observing = "observing"
phase_text LaunchPhase.succeeded = "succeeded"
phase_text LaunchPhase.degraded = "degraded"
phase_text LaunchPhase.failed = "failed"
phase_text LaunchPhase.cancelled = "cancelled"
phase_text LaunchPhase.requires_restart = "requires-restart"
phase_text LaunchPhase.incomplete = "incomplete"

abbrev pub outcome_text : ObservedOutcome → String
outcome_text ObservedOutcome.succeeded = "succeeded"
outcome_text ObservedOutcome.degraded = "degraded"
outcome_text ObservedOutcome.failed = "failed"
outcome_text ObservedOutcome.incomplete = "incomplete"
