-- ===== src/Deployment/Recording.antt =====
-- deployment.ts, transitionDeployment: what every sequence of accepted events keeps.
use agx.Prelude.{
  ◌≡◌, ◌∙◌, ◌≢◌, refl, String, List, [], ◌∷◌, ◌⊎◌, inl, inr, arith, none, some, subst, Option,
}
use agx.Prelude.Checked.{Checked, ok, refused}
use agx.Activation.Phases.{ok-inj}
use agx.Facts.{known}
use agx.Time.{DateParse}
use agx.Deployment.{
  DeploymentPhase, DeploymentEvent, DeploymentStatus, ExternalEvidenceObservation, apply_started,
  observed, remote_uncertain, resume_requested, drift_detected, evidence_observed,
  create_deployment_status, transition_deployment, transition_at, observe_evidence,
  evidence_checked,
}

-- The accepted events that lead from a new deployment to a status, the latest first, each with
-- the time at which it came.
pub data Reached (parse : DateParse) (id at : String)
    : List (DeploymentEvent × String) → DeploymentStatus → Type 0 where
  created : Reached parse id at [] (create_deployment_status id at)
  next :
      {events : List (DeploymentEvent × String)} {s t : DeploymentStatus} (event : DeploymentEvent)
      (now : String)
      → Reached parse id at events s
      → transition_deployment parse s event now ≡ ok t
      → Reached parse id at ((event, now) ∷ events) t

abbrev pub started_with : DeploymentEvent → Option String
started_with (apply_started id) = some id
started_with _ = none

abbrev pub first_of : Option String → Option String → Option String
first_of none rest = rest
first_of (some id) rest = some id

-- the operation of the latest apply
abbrev pub started_operation : List (DeploymentEvent × String) → Option String
started_operation [] = none
started_operation ((event, now) ∷ events) = first_of (started_with event) (started_operation events)

-- What a status keeps of its history.
pub record Records (id : String) (events : List (DeploymentEvent × String)) (s : DeploymentStatus)
    : Type 0 where
  pub same_deployment : s.deployment_id ≡ id
  pub not_verified : s.phase ≢ DeploymentPhase.verified
  pub planned_or_known :
      ((s.phase ≡ DeploymentPhase.planned) × (started_operation events ≡ none))
      ⊎ ((s.phase ≢ DeploymentPhase.planned)
          × ((operation : String) × (started_operation events ≡ some operation)
              × (s.last_operation_id ≡ known operation)))
  pub reason_known : s.phase ≡ DeploymentPhase.inconclusive → s.reason ≢ none

along :
    {id : String} {events : List (DeploymentEvent × String)} {q t : DeploymentStatus}
    → ok q ≡ ok t
    → Records id events q
    → Records id events t
along {id} {events} e r = subst (λ (q : DeploymentStatus). Records id events q) (ok-inj e) r

-- An event that starts no operation, out of a phase that follows one.
moved :
    {id : String} {events : List (DeploymentEvent × String)} {s : DeploymentStatus}
    (t : DeploymentStatus) (event : DeploymentEvent) (now : String)
    → Records id events s
    → s.phase ≢ DeploymentPhase.planned
    → started_with event ≡ none
    → t.deployment_id ≡ s.deployment_id
    → t.last_operation_id ≡ s.last_operation_id
    → t.phase ≢ DeploymentPhase.planned
    → t.phase ≢ DeploymentPhase.verified
    → (t.phase ≡ DeploymentPhase.inconclusive → t.reason ≢ none)
    → Records id ((event, now) ∷ events) t
moved {events} {s} t event now r ns a d l np nv k = record {
  same_deployment = d ∙ r.same_deployment;
  not_verified = nv;
  planned_or_known = elim r.planned_or_known [
    | inl (e, n) ↦ absurd (ns e)
    | inr (n, (operation, e, f)) ↦ inr (np, (operation, rw a e, l ∙ f))
  ];
  reason_known = k;
}

observe_evidence-Records :
    (v : Checked {0} Unit) {id : String} {events : List (DeploymentEvent × String)}
    (s t : DeploymentStatus) (proof : ExternalEvidenceObservation) (now : String)
    → Records id events s
    → s.phase ≢ DeploymentPhase.planned
    → evidence_checked v s ≡ ok t
    → Records id ((evidence_observed proof, now) ∷ events) t
unfolding evidence_checked
observe_evidence-Records (ok u) s t proof now r ns e =
    along e (moved _ _ now r ns refl refl refl ns r.not_verified r.reason_known)
observe_evidence-Records (refused reason) s t proof now r ns e = absurd (cc)

step-Records :
    (parse : DateParse) (phase : DeploymentPhase) {id : String}
    {events : List (DeploymentEvent × String)} (s t : DeploymentStatus) (event : DeploymentEvent)
    (now : String)
    → Records id events s
    → s.phase ≡ phase
    → transition_at parse phase s event now ≡ ok t
    → Records id ((event, now) ∷ events) t
unfolding transition_at observe_evidence
step-Records parse DeploymentPhase.planned s t (apply_started o) now r p e = along e (record {
  same_deployment = r.same_deployment;
  not_verified = λ e. cc;
  planned_or_known = inr ((λ e. cc), (o, refl, refl));
  reason_known = λ e. absurd (cc);
})
step-Records parse DeploymentPhase.applying s t (observed o) now r p e = along e (
    moved _ _ now r (λ e. cc) refl refl refl (λ e. ground arith) (λ e. ground arith)
      (λ e. ground arith))
step-Records parse DeploymentPhase.applying s t (remote_uncertain o) now r p e =
    along e (moved _ _ now r (λ e. cc) refl refl refl (λ e. cc) (λ e. cc) (λ e f. cc))
step-Records parse DeploymentPhase.inconclusive s t resume_requested now r p e =
    along e (moved _ _ now r (λ e. cc) refl refl refl (λ e. cc) (λ e. cc) (λ e. absurd (cc)))
step-Records parse DeploymentPhase.configured s t drift_detected now r p e =
    along e (moved _ _ now r (λ e. cc) refl refl refl (λ e. cc) (λ e. cc) (λ e. absurd (cc)))
step-Records parse DeploymentPhase.configured s t (evidence_observed proof) now r p e =
    observe_evidence-Records _ s t proof now r (λ e. cc) e
step-Records parse DeploymentPhase.awaiting s t (evidence_observed proof) now r p e =
    observe_evidence-Records _ s t proof now r (λ e. cc) e
step-Records parse _ s t event now r p e = absurd (cc)

-- Whatever events a new deployment accepts, it is never verified; it is planned as long as no
-- operation was started and then knows the one that was; and it has a reason when it is
-- inconclusive.
pub Reached-Records :
    {parse : DateParse} {id at : String} {events : List (DeploymentEvent × String)}
    {s : DeploymentStatus}
    → Reached parse id at events s
    → Records id events s
unfolding transition_deployment create_deployment_status
Reached-Records created = record {
  same_deployment = refl;
  not_verified = λ e. cc;
  planned_or_known = inl (refl, refl);
  reason_known = λ e. absurd (cc);
}
Reached-Records {parse} (next {s = s} {t = t} event now run e) =
    step-Records parse s.phase s t event now (Reached-Records run) refl e
