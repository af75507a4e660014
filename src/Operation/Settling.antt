-- ===== src/Operation/Settling.antt =====
-- operation.ts, transitionOperation: how a sequence of accepted events can end.
use agx.Prelude.{◌≡◌, ◌≢◌, refl, sym, ◌∙◌, subst, ap, String, Bool, true, false, List, [], ◌∷◌}
use agx.Prelude.Checked.{ok}
use agx.Time.{DateParse}
use agx.Deployment.{ExternalEvidenceObservation}
use agx.Operation.{
  OperationPhase, OperationOutcome, OperationEvent, evidence_observed, OperationStatus,
  transition_operation,
}
use agx.Operation.Reaching.{
  applies, observes, start, watch, end_as, fails, cancels_early, cancels, loses, resumes, gives_up,
  cleans_up, shows, Arrow, transition_operation_lem,
}

-- The accepted events that lead from a status to another one, the latest first, with their times.
pub data Runs (parse : DateParse) (s : OperationStatus)
    : List (OperationEvent × String) → OperationStatus → Type 0 where
  here : Runs parse s [] s
  next :
      {events : List (OperationEvent × String)} {q t : OperationStatus} (event : OperationEvent)
      (now : String)
      → Runs parse s events q
      → transition_operation parse q event now ≡ ok t
      → Runs parse s ((event, now) ∷ events) t

-- the phases that nothing leaves
abbrev pub is_settled : OperationPhase → Bool
is_settled OperationPhase.succeeded = true
is_settled OperationPhase.degraded = true
is_settled OperationPhase.cancelled = true
is_settled OperationPhase.needs_manual_cleanup = true
is_settled _ = false

pub data AllEvidence : List (OperationEvent × String) → Type 0 where
  none_left : AllEvidence []
  one_more :
      {events : List (OperationEvent × String)} (proof : ExternalEvidenceObservation) (now : String)
      → AllEvidence events
      → AllEvidence ((evidence_observed proof, now) ∷ events)

-- The end of an arrow out of a settled phase, and the event on it.
abbrev Stays : OperationPhase → OperationEvent → OperationPhase → Type 0
Stays a event b =
    (b ≡ a) × ((proof : ExternalEvidenceObservation) × (event ≡ evidence_observed proof))

settled_arrow :
    {a b : OperationPhase} {event : OperationEvent}
    → Arrow a event b
    → is_settled a ≡ true
    → Stays a event b
settled_arrow (shows proof d) e = (refl, (proof, refl))
settled_arrow start e = absurd (cc)
settled_arrow watch e = absurd (cc)
settled_arrow (end_as o) e = absurd (cc)
settled_arrow (fails r applies) e = absurd (cc)
settled_arrow (fails r observes) e = absurd (cc)
settled_arrow (cancels_early r) e = absurd (cc)
settled_arrow (cancels r applies) e = absurd (cc)
settled_arrow (cancels r observes) e = absurd (cc)
settled_arrow (loses r applies) e = absurd (cc)
settled_arrow (loses r observes) e = absurd (cc)
settled_arrow resumes e = absurd (cc)
settled_arrow (gives_up r) e = absurd (cc)
settled_arrow (cleans_up r) e = absurd (cc)

unverified_arrow :
    {a b : OperationPhase} {event : OperationEvent}
    → Arrow a event b
    → a ≢ OperationPhase.verified
    → b ≢ OperationPhase.verified
unverified_arrow (shows proof d) n e = n e
unverified_arrow (end_as OperationOutcome.succeeded) n e = cc
unverified_arrow (end_as OperationOutcome.degraded) n e = cc
unverified_arrow (end_as OperationOutcome.failed) n e = cc
unverified_arrow start n e = cc
unverified_arrow watch n e = cc
unverified_arrow (fails r act) n e = cc
unverified_arrow (cancels_early r) n e = cc
unverified_arrow (cancels r act) n e = cc
unverified_arrow (loses r act) n e = cc
unverified_arrow resumes n e = cc
unverified_arrow (gives_up r) n e = cc
unverified_arrow (cleans_up r) n e = cc

closes :
    {events : List (OperationEvent × String)} {a b c : OperationPhase} (event : OperationEvent)
    (now : String)
    → Arrow b event c
    → is_settled a ≡ true
    → (b ≡ a) × AllEvidence events
    → (c ≡ a) × AllEvidence ((event, now) ∷ events)
closes {events} event now arrow f (e, rest) =
    let (stays, (proof, shown)) = settled_arrow arrow (ap is_settled e ∙ f) in
    (stays ∙ e, subst (λ x. AllEvidence ((x, now) ∷ events)) (sym shown) (one_more proof now rest))

-- Whatever events an operation accepts, it does not become verified; and once it has succeeded,
-- is degraded, is cancelled or wants a manual cleanup, it keeps that phase and accepts nothing
-- but evidence.
pub Runs-settles :
    {parse : DateParse} {s t : OperationStatus} {events : List (OperationEvent × String)}
    → Runs parse s events t
    → (s.phase ≢ OperationPhase.verified → t.phase ≢ OperationPhase.verified)
      × (is_settled s.phase ≡ true → (t.phase ≡ s.phase) × AllEvidence events)
Runs-settles here = ((λ n. n), (λ e. (refl, none_left)))
Runs-settles {parse} {s} {t} (next {events = events} {q = q} event now run e) =
    let moves = (transition_operation_lem parse q event now).0 t e in
    let (unverified, settled) = Runs-settles run in
    (
      (λ n. unverified_arrow moves.arrow (unverified n)),
      (λ f. closes event now moves.arrow f (settled f)),
    )
