-- ===== src/Status/Loading.antt =====
-- application/status.ts: the status of what is stored, without any readback or evidence.
use agx.Prelude.{
  String, ◌≡◌, ◌≢◌, refl, ap, subst, ◌∙◌, true, not, ◌||◌, Option, none, some, [], ◌∷◌, string_eq,
  ◌==◌, if◌then◌else◌, arith, eq_iff, inl, inr,
}
use mathlib.Core.Option.{some-injective}
use agx.Prelude.Text.{is_blank, texts}
use agx.Prelude.Outcome.{returned}
use agx.Prelude.Exec.{Exec, pure, throw, ◌>>=◌, >>=-eq-returned, pure-returned, if-returned}
use agx.Facts.{Fact, known, unknown}
use agx.Config.{StableConfigRevision}
use agx.Queries.{Lookup}
use agx.Deployment.{DeploymentStatus, github_delivery}
use agx.Journal.{Journal}
use agx.Evidence.{EvidencePhase, EvidenceReceipt}
use agx.Status.{UnifiedPhase, ProjectionInput}
use agx.Status.Readbacks.{readback_summaries}
use agx.Status.Projecting.{project_status}
use agx.Status.Signals.{Signals, phase_of, signals_of}
use agx.Status.Diagnostics.{diagnostics_of}

-- awaitingEvidence
abbrev pub awaiting_evidence : EvidenceReceipt
awaiting_evidence = record {
  phase = EvidencePhase.awaiting_verification;
  profile = github_delivery;
  installation_id = "";
  deployment_digest = "";
  subject_digest = "";
  evaluated_at = "1970-01-01T00:00:00.000Z";
  satisfied = [];
  missing = [];
  diagnostics = [];
  next_steps = [];
  evidence = [];
}

-- DurableStatusDependencies, what of it is used
pub record Dependencies (S : Type 0) : Type 0 where
  pub find_deployment : String → Exec S (Option DeploymentStatus)
  pub find_operation : String → Exec S (Option Journal)
  pub find_revision : String → Exec S Lookup

module _ {S : Type 0} (deps : Dependencies S) where
  revision_fact : Lookup → String → String → Exec S (Fact StableConfigRevision)
  revision_fact (Lookup.revision r) id next_action = pure (known r)
  revision_fact Lookup.missing id next_action = pure (unknown "active-revision-missing" next_action)
  revision_fact (Lookup.unsupported reason) id next_action =
      throw (texts ("configuration revision unsupported: " ∷ id ∷ " (" ∷ reason ∷ ")" ∷ []))

  -- The next action stands where the time of the observation is meant to.
  active_revision : Option String → String → Exec S (Fact StableConfigRevision)
  active_revision none next_action = pure (unknown "active-revision-unbound" next_action)
  active_revision (some id) next_action = do
    found ← deps.find_revision id
    revision_fact found id next_action

  abbrev input_of : DeploymentStatus → Journal → Fact StableConfigRevision → ProjectionInput
  input_of d o revision = record {
    active_revision = revision;
    deployment = d;
    operation = o;
    launch_plans = [];
    readbacks = [];
    evidence = awaiting_evidence;
  }

  load_both : Option DeploymentStatus → Option Journal → Exec S (Option ProjectionInput)
  load_both (some d) (some o) = if not (o.deployment_id == d.deployment_id) then pure none else do
    revision ← active_revision o.revision_id d.next_action
    pure (some (input_of d o revision))
  load_both _ _ = pure none

  unfoldable pub load_status_projection : String → String → Exec S (Option ProjectionInput)
  unfolding revision_fact active_revision load_both
  load_status_projection deployment_id operation_id =
      if is_blank deployment_id || is_blank operation_id then pure none else do
        d ← deps.find_deployment deployment_id
        o ← deps.find_operation operation_id
        load_both d o

  -- A status that can still change for the better.
  abbrev pub Unsettled : UnifiedPhase → Type 0
  Unsettled p =
      (p ≢ UnifiedPhase.verified) × (p ≢ UnifiedPhase.succeeded) × (p ≢ UnifiedPhase.configured)

  awaiting-Unsettled : (s : Signals) → s.awaiting ≡ true → Unsettled (phase_of s)
  unfolding phase_of
  awaiting-Unsettled s e = ((λ v. ground arith), (λ v. ground arith), (λ v. ground arith))

  awaiting_input :
      (d : DeploymentStatus) (o : Journal) (revision : Fact StableConfigRevision)
      → Unsettled (project_status (input_of d o revision)).phase
  unfolding project_status signals_of
  awaiting_input d o revision =
      let read = readback_summaries [] in
      let diagnostics = diagnostics_of (input_of d o revision) read.resources read.diagnostics in
      awaiting-Unsettled (signals_of (input_of d o revision) read.resources diagnostics)
        (ground arith)

  -- Where a loaded status comes from.
  pub record Loaded (deployment_id operation_id : String) (input : ProjectionInput) (s : S)
      : Type 0 where
    pub t : S
    pub u : S
    pub found_deployment :
        deps.find_deployment deployment_id s ≡ (returned (some input.deployment), t)
    pub found_operation : deps.find_operation operation_id t ≡ (returned (some input.operation), u)
    pub same_deployment : input.operation.deployment_id ≡ input.deployment.deployment_id
    pub unsettled : Unsettled (project_status input).phase

  load_both-Unsettled :
      (d : Option DeploymentStatus) (o : Option Journal) (input : ProjectionInput) (s s' : S)
      → load_both d o s ≡ (returned (some input), s')
      → (d ≡ some input.deployment)
        × (o ≡ some input.operation)
        × (input.operation.deployment_id ≡ input.deployment.deployment_id)
        × Unsettled (project_status input).phase
  unfolding load_both
  load_both-Unsettled none o input s s' e = absurd (cc)
  load_both-Unsettled (some d) none input s s' e = absurd (cc)
  load_both-Unsettled (some d) (some o) input s s' e =
      elim (if-returned (not (o.deployment_id == d.deployment_id)) (pure none) _ e) [
        | inl (other, nothing) ↦ absurd (cc)
        | inr (same, rest) ↦
            let (revision, known_revision, is_input) =
              pure-returned (active_revision o.revision_id d.next_action)
                (λ revision. some (input_of d o revision)) rest in
            subst
              (λ i.
                (some d ≡ some i.deployment)
                × (some o ≡ some i.operation)
                × (i.operation.deployment_id ≡ i.deployment.deployment_id)
                × Unsettled (project_status i).phase)
              (some-injective _ _ is_input)
              (refl, refl, (eq_iff _ _).0 (ground arith), awaiting_input d o revision)
      ]

  -- The status of what is stored is only loaded for an operation of the deployment that is asked
  -- for, and is never shown as configured, succeeded or verified, since no evidence is loaded.
  pub load_unsettled :
      (deployment_id operation_id : String) (input : ProjectionInput) (s s' : S)
      → load_status_projection deployment_id operation_id s ≡ (returned (some input), s')
      → Loaded deployment_id operation_id input s
  unfolding load_status_projection
  load_unsettled deployment_id operation_id input s s' e =
      elim (if-returned (is_blank deployment_id || is_blank operation_id) (pure none) _ e) [
        | inl (blank, nothing) ↦ absurd (cc)
        | inr (named, rest) ↦
            let (d, t, deployment, rest') =
              >>=-eq-returned (deps.find_deployment deployment_id) _ rest in
            let (o, u, operation, rest'') =
              >>=-eq-returned (deps.find_operation operation_id) _ rest' in
            let (d_some, o_some, same, unsettled) = load_both-Unsettled d o input u s' rest'' in
            record {
              t = t;
              u = u;
              found_deployment = deployment ∙ ap (λ x. (returned x, t)) d_some;
              found_operation = operation ∙ ap (λ x. (returned x, u)) o_some;
              same_deployment = same;
              unsettled = unsettled;
            }
      ]
