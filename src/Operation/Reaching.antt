-- ===== src/Operation/Reaching.antt =====
-- operation.ts, transitionOperation: the state diagram, and what no sequence of events gets past.
use agx.Prelude.{◌≡◌, refl, String, ◌⊎◌, inl, inr, subst, sym}
use agx.Prelude.Checked.{Checked, ok, refused}
use agx.Activation.Phases.{ok-inj}
use agx.Time.{DateParse}
use agx.Deployment.{ExternalEvidenceObservation, validate_external_evidence_observation}
use agx.Operation.{
  OperationPhase, OperationOutcome, OperationEvent, started, process_observed, observed,
  remote_uncertain, resumed, manual_cleanup_required, evidence_observed, OperationStatus,
  outcome_phase, transition_operation, transition_at, observe_evidence, evidence_checked, fail,
  cancel, suspend, want_cleanup,
}

-- the phases in which an operation acts on the remote side
pub data Active : OperationPhase → Type 0 where
  applies : Active OperationPhase.applying
  observes : Active OperationPhase.observing

-- The state diagram with the events on its arrows.
pub data Arrow : OperationPhase → OperationEvent → OperationPhase → Type 0 where
  start : Arrow OperationPhase.prepared started OperationPhase.applying
  watch : Arrow OperationPhase.applying process_observed OperationPhase.observing
  end_as : (o : OperationOutcome) → Arrow OperationPhase.observing (observed o) (outcome_phase o)
  fails :
      {a : OperationPhase} (reason : String)
      → Active a
      → Arrow a (OperationEvent.failed reason) OperationPhase.failed
  cancels_early :
      (reason : String)
      → Arrow OperationPhase.prepared (OperationEvent.cancelled reason) OperationPhase.cancelled
  cancels :
      {a : OperationPhase} (reason : String)
      → Active a
      → Arrow a (OperationEvent.cancelled reason) OperationPhase.cancelled
  loses :
      {a : OperationPhase} (reason : String)
      → Active a
      → Arrow a (remote_uncertain reason) OperationPhase.inconclusive
  resumes : Arrow OperationPhase.inconclusive resumed OperationPhase.applying
  gives_up :
      (reason : String)
      → Arrow OperationPhase.inconclusive
          (manual_cleanup_required reason)
          OperationPhase.needs_manual_cleanup
  cleans_up :
      (reason : String)
      → Arrow OperationPhase.failed
          (manual_cleanup_required reason)
          OperationPhase.needs_manual_cleanup
  shows :
      {a : OperationPhase} (proof : ExternalEvidenceObservation)
      → ((a ≡ OperationPhase.succeeded) ⊎ (a ≡ OperationPhase.degraded))
      → Arrow a (evidence_observed proof) a

-- What an event needs besides its arrow.
abbrev pub Backed : DateParse → OperationStatus → OperationEvent → String → Type 0
Backed parse s (evidence_observed proof) now =
    validate_external_evidence_observation parse proof s.deployment_id s.operation_id now ≡ ok tt
Backed parse s _ now = Unit

pub record Moves (parse : DateParse) (s : OperationStatus) (event : OperationEvent) (now : String)
    (t : OperationStatus) : Type 0 where
  pub arrow : Arrow s.phase event t.phase
  pub backed : Backed parse s event now
  pub same_operation : t.operation_id ≡ s.operation_id
  pub same_deployment : t.deployment_id ≡ s.deployment_id

abbrev Step :
    DateParse
    → OperationPhase
    → OperationStatus
    → OperationEvent
    → String
    → OperationStatus
    → Type 0
Step parse a s event now t =
    Arrow a event t.phase
    × Backed parse s event now
    × (t.operation_id ≡ s.operation_id)
    × (t.deployment_id ≡ s.deployment_id)

to :
    (parse : DateParse) {a : OperationPhase} (s : OperationStatus) {event : OperationEvent}
    (now : String) {q t : OperationStatus}
    → ok q ≡ ok t
    → Step parse a s event now q
    → Step parse a s event now t
to parse {a} s {event} now e r =
    subst (λ (q : OperationStatus). Step parse a s event now q) (ok-inj e) r

evidence-Step :
    (parse : DateParse) (v : Checked {0} Unit) (a : OperationPhase) (s t : OperationStatus)
    (proof : ExternalEvidenceObservation) (now : String)
    → validate_external_evidence_observation parse proof s.deployment_id s.operation_id now ≡ v
    → s.phase ≡ a
    → ((a ≡ OperationPhase.succeeded) ⊎ (a ≡ OperationPhase.degraded))
    → evidence_checked v s ≡ ok t
    → Step parse a s (evidence_observed proof) now t
unfolding evidence_checked
evidence-Step parse (ok u) a s t proof now v p d e =
    to parse s now e
      (subst (λ b. Arrow a (evidence_observed proof) b) (sym p) (shows proof d), v, refl, refl)
evidence-Step parse (refused reason) a s t proof now v p d e = absurd (cc)

transition_at-Step :
    (parse : DateParse) (a : OperationPhase) (s t : OperationStatus) (event : OperationEvent)
    (now : String)
    → s.phase ≡ a
    → transition_at parse a s event now ≡ ok t
    → Step parse a s event now t
unfolding transition_at observe_evidence fail cancel suspend want_cleanup
transition_at-Step parse OperationPhase.prepared s t started now p e =
    to parse s now e (start, tt, refl, refl)
transition_at-Step parse OperationPhase.applying s t process_observed now p e =
    to parse s now e (watch, tt, refl, refl)
transition_at-Step parse OperationPhase.observing s t (observed o) now p e =
    to parse s now e (end_as o, tt, refl, refl)
transition_at-Step parse OperationPhase.applying s t (OperationEvent.failed r) now p e =
    to parse s now e (fails r applies, tt, refl, refl)
transition_at-Step parse OperationPhase.observing s t (OperationEvent.failed r) now p e =
    to parse s now e (fails r observes, tt, refl, refl)
transition_at-Step parse OperationPhase.prepared s t (OperationEvent.cancelled r) now p e =
    to parse s now e (cancels_early r, tt, refl, refl)
transition_at-Step parse OperationPhase.applying s t (OperationEvent.cancelled r) now p e =
    to parse s now e (cancels r applies, tt, refl, refl)
transition_at-Step parse OperationPhase.observing s t (OperationEvent.cancelled r) now p e =
    to parse s now e (cancels r observes, tt, refl, refl)
transition_at-Step parse OperationPhase.applying s t (remote_uncertain r) now p e =
    to parse s now e (loses r applies, tt, refl, refl)
transition_at-Step parse OperationPhase.observing s t (remote_uncertain r) now p e =
    to parse s now e (loses r observes, tt, refl, refl)
transition_at-Step parse OperationPhase.inconclusive s t resumed now p e =
    to parse s now e (resumes, tt, refl, refl)
transition_at-Step parse OperationPhase.inconclusive s t (manual_cleanup_required r) now p e =
    to parse s now e (gives_up r, tt, refl, refl)
transition_at-Step parse OperationPhase.failed s t (manual_cleanup_required r) now p e =
    to parse s now e (cleans_up r, tt, refl, refl)
transition_at-Step parse OperationPhase.succeeded s t (evidence_observed proof) now p e =
    evidence-Step parse _ _ s t proof now refl p (inl refl) e
transition_at-Step parse OperationPhase.degraded s t (evidence_observed proof) now p e =
    evidence-Step parse _ _ s t proof now refl p (inr refl) e
transition_at-Step parse _ s t OperationEvent.verified now p e = absurd (cc)
transition_at-Step parse _ s t event now p e = absurd (cc)

accept :
    (parse : DateParse) (s : OperationStatus) (event : OperationEvent) (now : String)
    {a b : OperationPhase}
    → Arrow a event b
    → s.phase ≡ a
    → Backed parse s event now
    → (t : OperationStatus) × (transition_at parse a s event now ≡ ok t) × (t.phase ≡ b)
unfolding transition_at observe_evidence evidence_checked fail cancel suspend want_cleanup
accept parse s _ now start p v = (_, refl, refl)
accept parse s _ now watch p v = (_, refl, refl)
accept parse s _ now (end_as o) p v = (_, refl, refl)
accept parse s _ now (fails r applies) p v = (_, refl, refl)
accept parse s _ now (fails r observes) p v = (_, refl, refl)
accept parse s _ now (cancels_early r) p v = (_, refl, refl)
accept parse s _ now (cancels r applies) p v = (_, refl, refl)
accept parse s _ now (cancels r observes) p v = (_, refl, refl)
accept parse s _ now (loses r applies) p v = (_, refl, refl)
accept parse s _ now (loses r observes) p v = (_, refl, refl)
accept parse s _ now resumes p v = (_, refl, refl)
accept parse s _ now (gives_up r) p v = (_, refl, refl)
accept parse s _ now (cleans_up r) p v = (_, refl, refl)
accept parse s _ now (shows {a = a} proof d) p v =
    (record s { next_action = "evaluate-evidence-profile" }, accepted a d, p)
  where
    accepted :
        (a : OperationPhase)
        → ((a ≡ OperationPhase.succeeded) ⊎ (a ≡ OperationPhase.degraded))
        → transition_at parse a s (evidence_observed proof) now
          ≡ ok (record s { next_action = "evaluate-evidence-profile" })
    accepted a (inl e) = rw (e, v) refl
    accepted a (inr e) = rw (e, v) refl

-- An event is accepted exactly along an arrow of the state diagram from the status's phase, an
-- observation only if it is valid evidence for this operation; the status then has the phase at
-- the arrow's end and keeps its identifiers.
pub transition_operation_lem :
    (parse : DateParse) (s : OperationStatus) (event : OperationEvent) (now : String)
    → ((t : OperationStatus)
        → transition_operation parse s event now ≡ ok t
        → Moves parse s event now t)
      × ((b : OperationPhase)
          → Arrow s.phase event b
          → Backed parse s event now
          → (t : OperationStatus) × (transition_operation parse s event now ≡ ok t) × (t.phase ≡ b))
unfolding transition_operation
transition_operation_lem parse s event now = (
  (λ t e.
      let (a, b, o, d) = transition_at-Step parse s.phase s t event now refl e in
      record { arrow = a; backed = b; same_operation = o; same_deployment = d }),
  (λ b arrow v. accept parse s event now arrow refl v),
)
