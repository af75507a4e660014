-- ===== src/Preflight/Answering.antt =====
-- deployment-preflight.ts: what it means that no answer of a port blocks the plan.
use agx.Prelude.{String, ◌≡◌, refl, subst, Option, none, some, List, [], ◌∷◌, All, string_eq}
use agx.Prelude.Lists.{append-nil_left}
use agx.Prelude.Outcome.{Outcome, returned, thrown}
use agx.Prelude.Exec.{Exec}
use agx.Config.{StableConfigRevision}
use agx.Queries.{Lookup}
use agx.Preflight.{
  RepositoryTarget, ProviderTarget, Subject, Input, Blocker, Host, sorted_repositories,
  sorted_providers, repository_resource,
}
use agx.Preflight.Asking.{
  SourceValidation, Readiness, Inventory, InventoryResult, SubjectReadback, Ports, Check, ask, both,
  each, answered, source_blockers, revision_blockers, repository_blockers, project_answer_blockers,
  provider_blockers, subject_blockers, ask_source, ask_repository, ask_revision, ask_project,
  ask_provider, ask_subject, ask_subject_of, ask_sources, ask_remote,
}
use agx.Preflight.Judging.{
  Fits, project_ready, provider-Fits, repository_ready, revision_found, source_valid,
  subject_observed,
}

-- The call gave this answer at some time.
pub record Answers {W A : Type 0} (call : Exec W A) (a : A) : Type 0 where
  pub asked : W
  pub after : W
  pub answer : call asked ≡ (returned a, after)

-- Every port gave the answer that is needed.
pub record Cleared {W D : Type 0} (host : Host) (ports : Ports W D) (input : Input D) : Type 0 where
  pub sources :
      All
        (λ (t : RepositoryTarget D).
          Answers (ports.validate_source t.source_path input.source_root) SourceValidation.valid)
        (sorted_repositories host input.repositories)
  pub revision :
      (r : StableConfigRevision) × Answers
        (ports.find_revision input.revision_id)
        (Lookup.revision r)
  pub repositories :
      All
        (λ (t : RepositoryTarget D). Answers (ports.repository_preflight t) Readiness.ready)
        (sorted_repositories host input.repositories)
  pub project : Answers (ports.project_preflight input.project) Readiness.ready
  pub providers :
      All
        (λ (p : ProviderTarget D).
          (i : Inventory) × Answers (ports.inspect_provider p.provider) (InventoryResult.observed i)
          × Fits host p i)
        (sorted_providers host input.providers)
  pub subjects :
      All
        (λ (s : Subject).
          (readback : (Subject → Exec W SubjectReadback)) × (ports.readback_subject ≡ some readback)
          × Answers (readback s) SubjectReadback.observed)
        input.subjects

module _ {W : Type 0} where
  -- A call that does not block has returned an answer that does not.
  ask-clear :
      {A : Type 0} (call : Exec W A) (judge : Option A → List Blocker) (b : Blocker) (w : W)
      → judge none ≡ b ∷ []
      → (ask call judge w).0 ≡ []
      → (a : A) × Answers call a × (judge (some a) ≡ [])
  ask-clear {A = A} call judge b w blocks e = split (call w) refl e
    where
      split :
          (r : Outcome A × W)
          → call w ≡ r
          → (answered judge r).0 ≡ []
          → (a : A) × Answers call a × (judge (some a) ≡ [])
      split (returned a, t) f g = (a, record { asked = w; after = t; answer = f }, g)
      split (thrown x, t) f g = absurd (cc)

  both-clear : (m n : Check W) (w : W) → (both m n w).0 ≡ [] → ((m w).0 ≡ []) × ((n (m w).1).0 ≡ [])
  both-clear m n w e = append-nil_left (m w).0 (n (m w).1).0 e

  each-clear :
      {T : Type 0} (f : T → Check W) (P : T → Type 0)
      → ((t : T) (w : W) → (f t w).0 ≡ [] → P t)
      → (ts : List T) (w : W) → (each f ts w).0 ≡ []
      → All P ts
  unfolding each
  each-clear f P h [] w e = tt
  each-clear f P h (t ∷ ts) w e =
      let (first, rest) = both-clear (f t) (each f ts) w e in
      (h t w first, each-clear f P h ts (f t w).1 rest)

  -- The same, where only one answer does not block.
  ask-only :
      {A : Type 0} (call : Exec W A) (judge : Option A → List Blocker) (b : Blocker) (good : A)
      → judge none ≡ b ∷ []
      → ((a : A) → judge (some a) ≡ [] → a ≡ good)
      → (w : W) → (ask call judge w).0 ≡ []
      → Answers call good
  ask-only call judge b good blocks only w e =
      let (a, answers, unblocked) = ask-clear call judge b w blocks e in
      subst (λ x. Answers call x) (only a unblocked) answers

module _ {W D : Type 0} (host : Host) (ports : Ports W D) where
  source_clear :
      (root : String) (t : RepositoryTarget D) (w : W)
      → (ask_source host ports root t w).0 ≡ []
      → Answers (ports.validate_source t.source_path root) SourceValidation.valid
  source_clear root t =
      ask-only (ports.validate_source t.source_path root) (source_blockers (repository_resource t))
        _ _ refl (source_valid (repository_resource t))

  repository_clear :
      (t : RepositoryTarget D) (w : W)
      → (ask_repository host ports t w).0 ≡ []
      → Answers (ports.repository_preflight t) Readiness.ready
  repository_clear t =
      ask-only (ports.repository_preflight t) (repository_blockers (repository_resource t)) _ _ refl
        (repository_ready (repository_resource t))

  revision_clear :
      (id : String) (w : W)
      → (ask (ports.find_revision id) (revision_blockers id) w).0 ≡ []
      → (r : StableConfigRevision) × Answers (ports.find_revision id) (Lookup.revision r)
  revision_clear id w e =
      let (found, answers, unblocked) =
        ask-clear (ports.find_revision id) (revision_blockers id) _ w refl e in
      let (r, is_revision) = revision_found id found unblocked in
      (r, subst (λ x. Answers (ports.find_revision id) x) is_revision answers)

  provider_clear :
      (p : ProviderTarget D) (w : W)
      → (ask_provider host ports p w).0 ≡ []
      → (i : Inventory) × Answers (ports.inspect_provider p.provider) (InventoryResult.observed i)
        × Fits host p i
  provider_clear p w e =
      let (v, answers, unblocked) =
        ask-clear (ports.inspect_provider p.provider)
          (provider_blockers host p.provider p.marketplace_source) _ w refl e in
      let (i, is_observed, fits) = provider-Fits host p v unblocked in
      (i, subst (λ x. Answers (ports.inspect_provider p.provider) x) is_observed answers, fits)

  subject_clear :
      (s : Subject) (w : W)
      → (ask_subject host ports s w).0 ≡ []
      → (readback : (Subject → Exec W SubjectReadback)) × (ports.readback_subject ≡ some readback)
        × Answers (readback s) SubjectReadback.observed
  subject_clear s w e = with_port ports.readback_subject refl e
    where
      with_port :
          (o : Option (Subject → Exec W SubjectReadback))
          → ports.readback_subject ≡ o
          → (ask_subject_of host ports o s w).0 ≡ []
          → (readback : (Subject → Exec W SubjectReadback)) × (ports.readback_subject
              ≡ some readback)
            × Answers (readback s) SubjectReadback.observed
      with_port none f e = absurd (cc)
      with_port (some readback) f e = (
        readback,
        f,
        ask-only (readback s) (subject_blockers s.id) _ _ refl (subject_observed s.id) w e,
      )

  -- Where nothing is added to the blockers, every port gave the answer that is needed.
  pub all_Cleared :
      (input : Input D) (w : W)
      → (ask_sources host ports input w).0 ≡ []
      → (ask_remote host ports input (ask_sources host ports input w).1).0 ≡ []
      → Cleared host ports input
  unfolding ask_remote
  all_Cleared input w sources remote =
      let repositories = sorted_repositories host input.repositories in
      let m₁ = ask_revision host ports input in
      let m₂ = each (ask_repository host ports) repositories in
      let m₃ = ask_project host ports input in
      let m₄ = each (ask_provider host ports) (sorted_providers host input.providers) in
      let m₅ = each (ask_subject host ports) input.subjects in
      let w₁ = (ask_sources host ports input w).1 in
      let w₂ = (m₁ w₁).1 in
      let w₃ = (m₂ w₂).1 in
      let w₄ = (m₃ w₃).1 in
      let (revision, e₂) = both-clear m₁ (both m₂ (both m₃ (both m₄ m₅))) w₁ remote in
      let (remotes, e₃) = both-clear m₂ (both m₃ (both m₄ m₅)) w₂ e₂ in
      let (project, e₄) = both-clear m₃ (both m₄ m₅) w₃ e₃ in
      let (providers, subjects) = both-clear m₄ m₅ w₄ e₄ in
      record {
        sources =
            each-clear (ask_source host ports input.source_root)
              (λ (t : RepositoryTarget D).
                Answers (ports.validate_source t.source_path input.source_root)
                  SourceValidation.valid)
              (source_clear input.source_root) repositories w sources;
        revision = revision_clear input.revision_id w₁ revision;
        repositories =
            each-clear (ask_repository host ports)
              (λ (t : RepositoryTarget D). Answers (ports.repository_preflight t) Readiness.ready)
              repository_clear repositories w₂ remotes;
        project =
            ask-only (ports.project_preflight input.project)
              (project_answer_blockers input.project.title) _ _ refl
              (project_ready input.project.title) w₃ project;
        providers =
            each-clear (ask_provider host ports)
              (λ (p : ProviderTarget D).
                (i : Inventory) × Answers (ports.inspect_provider p.provider)
                  (InventoryResult.observed i)
                × Fits host p i)
              provider_clear (sorted_providers host input.providers) w₄ providers;
        subjects =
            each-clear (ask_subject host ports)
              (λ (s : Subject).
                (readback : (Subject → Exec W SubjectReadback)) × (ports.readback_subject
                  ≡ some readback)
                × Answers (readback s) SubjectReadback.observed)
              subject_clear input.subjects (m₄ w₄).1 subjects;
      }
