-- ===== src/Evidence/Comparing.antt =====
-- evidence.ts, observationKey and observationSortKey: the texts by which observations are compared.
-- Two objects with the same fields have one text here, whatever the order of their keys.
use agx.Prelude.{
  ℕ, Bool, true, false, ◌&&◌, Option, none, some, StrictEq, nat_beq, nat_eq, string_eq, ◌==◌, arith,
  ◌≡◌, ◌↔◌, refl, ap, eq_iff, and-split,
}
use agx.Deployment.{EvidenceSource, github, multica}
use agx.Evidence.{EvidenceKind, ObservationOutcome, EvidenceRef, EvidenceObservation}
use agx.Evidence.Validating.{resource_eq, same_resource_iff}

abbrev pub kind_tag : EvidenceKind → ℕ
kind_tag EvidenceKind.control_repository = 0
kind_tag EvidenceKind.contracts_repository = 1
kind_tag EvidenceKind.project = 2
kind_tag EvidenceKind.project_item = 3
kind_tag EvidenceKind.contract_issue = 4
kind_tag EvidenceKind.agent_first_write = 5
kind_tag EvidenceKind.current_work = 6
kind_tag EvidenceKind.delivery_pr = 7
kind_tag EvidenceKind.delivery_result = 8
kind_tag EvidenceKind.checks_passed = 9
kind_tag EvidenceKind.independent_verifier = 10
kind_tag EvidenceKind.workspace = 11
kind_tag EvidenceKind.runtime = 12
kind_tag EvidenceKind.agent = 13
kind_tag EvidenceKind.task_completed = 14
kind_tag EvidenceKind.run_completed = 15

abbrev pub source_tag : EvidenceSource → ℕ
source_tag github = 0
source_tag multica = 1

abbrev pub outcome_tag : ObservationOutcome → ℕ
outcome_tag ObservationOutcome.matched = 0
outcome_tag ObservationOutcome.absent = 1
outcome_tag ObservationOutcome.ambiguous = 2
outcome_tag ObservationOutcome.drifted = 3
outcome_tag ObservationOutcome.rejected = 4

pub same_kind_iff : (a b : EvidenceKind) → (nat_beq (kind_tag a) (kind_tag b) ≡ true) ↔ (a ≡ b)
same_kind_iff a b = ground arith

pub same_source_iff :
    (a b : EvidenceSource) → (nat_beq (source_tag a) (source_tag b) ≡ true) ↔ (a ≡ b)
same_source_iff a b = ground arith

pub same_outcome_iff :
    (a b : ObservationOutcome) → (nat_beq (outcome_tag a) (outcome_tag b) ≡ true) ↔ (a ≡ b)
same_outcome_iff a b = ground arith

instance abbrev pub kind_eq : StrictEq EvidenceKind
kind_eq = record { same = λ a b. nat_beq (kind_tag a) (kind_tag b); same_iff = same_kind_iff }

instance abbrev pub source_eq : StrictEq EvidenceSource
source_eq = record {
  same = λ a b. nat_beq (source_tag a) (source_tag b);
  same_iff = same_source_iff;
}

instance abbrev pub outcome_eq : StrictEq ObservationOutcome
outcome_eq = record {
  same = λ a b. nat_beq (outcome_tag a) (outcome_tag b);
  same_iff = same_outcome_iff;
}

abbrev same_option : {A : Type 0} ⦃e : StrictEq A⦄ → Option A → Option A → Bool
same_option none none = true
same_option (some a) (some b) = a == b
same_option _ _ = false

same_ref : EvidenceRef → EvidenceRef → Bool
same_ref a b =
    a.resource_type == b.resource_type
    && same_option a.identity b.identity
    && same_option a.uuid b.uuid
    && same_option a.number b.number
    && same_option a.revision b.revision

unfoldable pub same_key : EvidenceObservation → EvidenceObservation → Bool
unfolding same_ref
same_key a b = a.source == b.source && a.kind == b.kind && same_ref a.ref b.ref

unfoldable pub same_observation : EvidenceObservation → EvidenceObservation → Bool
same_observation a b =
    a.schema_version == b.schema_version
    && a.evaluator_version == b.evaluator_version
    && a.installation_id == b.installation_id
    && a.deployment_digest == b.deployment_digest
    && a.subject_digest == b.subject_digest
    && a.fingerprint == b.fingerprint
    && a.outcome == b.outcome
    && a.observed_at == b.observed_at
    && same_key a b

some-inj : {A : Type 0} {a b : A} → some a ≡ some b → a ≡ b
some-inj e = cc

same_option_iff :
    {A : Type 0} ⦃e : StrictEq A⦄ (a b : Option A) → (same_option a b ≡ true) ↔ (a ≡ b)
same_option_iff none none = ((λ e. refl), (λ e. refl))
same_option_iff ⦃e⦄ (some a) (some b) =
    ((λ h. ap some ((e.same_iff a b).0 h)), (λ h. (e.same_iff a b).1 (some-inj h)))
same_option_iff none (some b) = ((λ e. absurd (cc)), (λ e. absurd (cc)))
same_option_iff (some a) none = ((λ e. absurd (cc)), (λ e. absurd (cc)))

same_ref_eq : (a b : EvidenceRef) → same_ref a b ≡ true → a ≡ b
unfolding same_ref
same_ref_eq a b e =
    let t : a.resource_type ≡ b.resource_type =
      (same_resource_iff a.resource_type b.resource_type).0 (ground arith) in
    let i : a.identity ≡ b.identity = (same_option_iff a.identity b.identity).0 (ground arith) in
    let u : a.uuid ≡ b.uuid = (same_option_iff a.uuid b.uuid).0 (ground arith) in
    let n : a.number ≡ b.number = (same_option_iff a.number b.number).0 (ground arith) in
    let r : a.revision ≡ b.revision = (same_option_iff a.revision b.revision).0 (ground arith) in
    λ k. record { resource_type = t k; identity = i k; uuid = u k; number = n k; revision = r k }

-- Observations with one text are one observation.
pub same_observation_eq : (a b : EvidenceObservation) → same_observation a b ≡ true → a ≡ b
unfolding same_observation same_key
same_observation_eq a b e =
    let (r₁, key) = and-split _ _ e in
    let (key₁, e_ref) = and-split _ _ key in
    let (e_source, e_kind) = and-split _ _ key₁ in
    let (r₂, e_at) = and-split _ _ r₁ in
    let (r₃, e_outcome) = and-split _ _ r₂ in
    let (r₄, e_print) = and-split _ _ r₃ in
    let (r₅, e_subject) = and-split _ _ r₄ in
    let (r₆, e_deployment) = and-split _ _ r₅ in
    let (r₇, e_installation) = and-split _ _ r₆ in
    let (e_schema, e_version) = and-split _ _ r₇ in
    let v : a.schema_version ≡ b.schema_version =
      (eq_iff a.schema_version b.schema_version).0 e_schema in
    let w : a.evaluator_version ≡ b.evaluator_version =
      (eq_iff a.evaluator_version b.evaluator_version).0 e_version in
    let s : a.source ≡ b.source = (same_source_iff a.source b.source).0 e_source in
    let c : a.kind ≡ b.kind = (same_kind_iff a.kind b.kind).0 e_kind in
    let i : a.installation_id ≡ b.installation_id =
      (eq_iff a.installation_id b.installation_id).0 e_installation in
    let d : a.deployment_digest ≡ b.deployment_digest =
      (eq_iff a.deployment_digest b.deployment_digest).0 e_deployment in
    let j : a.subject_digest ≡ b.subject_digest =
      (eq_iff a.subject_digest b.subject_digest).0 e_subject in
    let r : a.ref ≡ b.ref = same_ref_eq a.ref b.ref e_ref in
    let f : a.fingerprint ≡ b.fingerprint = (eq_iff a.fingerprint b.fingerprint).0 e_print in
    let o : a.outcome ≡ b.outcome = (same_outcome_iff a.outcome b.outcome).0 e_outcome in
    let t : a.observed_at ≡ b.observed_at = (eq_iff a.observed_at b.observed_at).0 e_at in
    λ k. record {
      schema_version = v k;
      evaluator_version = w k;
      source = s k;
      kind = c k;
      installation_id = i k;
      deployment_digest = d k;
      subject_digest = j k;
      ref = r k;
      fingerprint = f k;
      outcome = o k;
      observed_at = t k;
    }
