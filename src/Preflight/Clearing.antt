-- ===== src/Preflight/Clearing.antt =====
-- deployment-preflight.ts: an input that nothing is held against makes a plan.
use agx.Prelude.{
  String, ◌≡◌, refl, sym, ap, ◌∙◌, Bool, true, false, not, ◌&&◌, List, [], ◌∷◌, ◌++◌, map, all, any,
  string_eq, ◌==◌, arith, Bool-cases, inl, inr, text-ne,
}
use Prim.Native.Char.{Char, code}
use agx.Prelude.Lists.{append-nil_left}
use agx.Prelude.Text.{is_blank, trim, trim_start, trim_end, is_space, cons_unless_blank}
use agx.Prelude.Outcome.{returned}
use agx.Journal.{PlanStep, github_repository, github_project, provider_activation}
use agx.Journal.Plan.{is_resource_id, no_steps, create_journal}
use agx.Journal.Plan.Realising.{resources_ok, new_journal, create_journal_lem}
use agx.Apply.Remote.{ProjectTarget}
use agx.Preflight.{
  RepositoryTarget, ProviderTarget, Input, Host, block_if, repository_resource, insert_by, sort_by,
  resource_blockers, project_blockers, input_blockers, sorted_repositories, sorted_providers,
  build_plan_input,
}

block_if-nil : (b : Bool) (r reason : String) → block_if b r reason ≡ [] → b ≡ false
block_if-nil true r reason e = absurd (cc)
block_if-nil false r reason e = refl

not-false : (b : Bool) → not b ≡ false → b ≡ true
not-false b e = ground arith

solid-named : (c : Char) (t : String) → (cons_unless_blank false c t == "") ≡ false
solid-named c String.[] = text-ne _ "" (λ e. cc)
solid-named c (String.◌∷◌ d t) = text-ne _ "" (λ e. cc)

-- A resource name is not blank.
is_resource_id-named : (s : String) → is_resource_id s ≡ true → is_blank s ≡ false
unfolding is_resource_id is_blank trim trim_start trim_end
is_resource_id-named String.[] e = absurd (cc)
is_resource_id-named (String.◌∷◌ c s) e =
    let solid : is_space (code c) ≡ false = ground arith in
    rw (solid, solid) (solid-named c (trim_end s))

all-append :
    {A : Type 0} (p : A → Bool) (xs ys : List A) → all p (xs ++ ys) ≡ (all p xs && all p ys)
all-append p [] ys = refl
all-append p (x ∷ xs) ys = rw (all-append p xs ys) (ground arith)

all-map :
    {A B : Type 0} (p : B → Bool) (f : A → B) (xs : List A)
    → all p (map f xs) ≡ all (λ x. p (f x)) xs
all-map p f [] = refl
all-map p f (x ∷ xs) = ap (λ b. p (f x) && b) (all-map p f xs)

module _ {T : Type 0} (before : String → String → Bool) (key : T → String) (p : T → Bool) where
  all-insert_by : (t : T) (ts : List T) → all p (insert_by before key t ts) ≡ (p t && all p ts)
  unfolding insert_by
  all-insert_by t [] = refl
  all-insert_by t (u ∷ ts) = elim (Bool-cases (before (key u) (key t))) [
    | inl first ↦ rw (first, all-insert_by t ts) (ground arith)
    | inr later ↦ rw later refl
  ]

  all-sort_by : (ts : List T) → all p (sort_by before key ts) ≡ all p ts
  unfolding sort_by
  all-sort_by [] = refl
  all-sort_by (t ∷ ts) =
      all-insert_by t (sort_by before key ts) ∙ ap (λ b. p t && b) (all-sort_by ts)

module _ (host : Host) where
  named_well :
      (invalid r₁ r₂ : String) (seen resources : List String)
      → resource_blockers host invalid r₁ r₂ seen resources ≡ []
      → all is_resource_id resources ≡ true
  unfolding resource_blockers
  named_well invalid r₁ r₂ seen [] e = refl
  named_well invalid r₁ r₂ seen (r ∷ resources) e = elim (Bool-cases (is_resource_id r)) [
    | inl good ↦
        let others : block_if (any (λ k. k == host.lower r) seen) r r₂
              ++ resource_blockers host invalid r₁ r₂ (host.lower r ∷ seen) resources
            ≡ [] =
          rw good at e in
        let others_good =
          named_well invalid r₁ r₂ (host.lower r ∷ seen) resources (append-nil_left _ _ others).1 in
        rw (good, others_good) refl
    | inr bad ↦ absurd (cc (rw bad at e))
  ]

  project_named :
      (p : ProjectTarget) → project_blockers host p ≡ [] → is_resource_id p.installation_id ≡ true
  project_named p e = ground arith

no_steps-append :
    (xs : List PlanStep) (y : PlanStep) (ys : List PlanStep) → no_steps (xs ++ y ∷ ys) ≡ false
no_steps-append [] y ys = refl
no_steps-append (x ∷ xs) y ys = refl

module _ {D : Type 0} (host : Host) where
  abbrev repository_step : RepositoryTarget D → PlanStep
  repository_step t = record { kind = github_repository; resource = repository_resource t }

  abbrev provider_step : ProviderTarget D → PlanStep
  provider_step p = record { kind = provider_activation; resource = p.provider }

  repository_steps_ok :
      (ts : List (RepositoryTarget D))
      → all is_resource_id (map repository_resource ts) ≡ true
      → resources_ok (map repository_step (sorted_repositories host ts)) ≡ true
  repository_steps_ok ts e =
      all-map (λ (p : PlanStep). is_resource_id p.resource) repository_step _
      ∙ all-sort_by host.before repository_resource (λ t. is_resource_id (repository_resource t)) ts
      ∙ sym (all-map is_resource_id repository_resource ts)
      ∙ e

  provider_steps_ok :
      (ps : List (ProviderTarget D))
      → all is_resource_id (map (λ (p : ProviderTarget D). p.provider) ps) ≡ true
      → resources_ok (map provider_step (sorted_providers host ps)) ≡ true
  provider_steps_ok ps e =
      all-map (λ (p : PlanStep). is_resource_id p.resource) provider_step _
      ∙ all-sort_by host.before (λ (p : ProviderTarget D). p.provider)
          (λ (p : ProviderTarget D). is_resource_id p.provider) ps
      ∙ sym (all-map is_resource_id (λ (p : ProviderTarget D). p.provider) ps)
      ∙ e

  -- An input that nothing is held against makes a journal.
  pub unblocked_lem :
      (input : Input D)
      → input_blockers host input ≡ []
      → create_journal (build_plan_input host input)
        ≡ returned (new_journal (build_plan_input host input))
  unfolding input_blockers build_plan_input
  unblocked_lem input e =
      let (e₁, providers) = append-nil_left _ _ e in
      let (e₂, project) = append-nil_left _ _ e₁ in
      let (e₃, repositories) = append-nil_left _ _ e₂ in
      let (e₄, revision) = append-nil_left _ _ e₃ in
      let (e₅, operation) = append-nil_left _ _ e₄ in
      let (e₆, deployment) = append-nil_left _ _ e₅ in
      let named =
        is_resource_id-named input.operation_id
          (not-false _ (block_if-nil (not (is_resource_id input.operation_id)) _ _ operation)) in
      let placed =
        is_resource_id-named input.deployment_id
          (not-false _ (block_if-nil (not (is_resource_id input.deployment_id)) _ _ deployment)) in
      let revised = block_if-nil (is_blank input.revision_id) _ _ revision in
      let later = map provider_step (sorted_providers host input.providers) in
      let project_step : PlanStep = record {
        kind = github_project;
        resource = input.project.installation_id;
      } in
      let steps_ok =
        all-append (λ (p : PlanStep). is_resource_id p.resource)
          (map repository_step (sorted_repositories host input.repositories))
          (project_step ∷ later) in
      let repositories_ok =
        repository_steps_ok input.repositories (named_well host _ _ _ [] _ repositories) in
      let providers_ok = provider_steps_ok input.providers (named_well host _ _ _ [] _ providers) in
      let project_ok = project_named host input.project project in
      let some_steps =
        no_steps-append (map repository_step (sorted_repositories host input.repositories))
          project_step later in
      create_journal_lem (build_plan_input host input)
      ∙ rw (named, placed, revised, some_steps, steps_ok, repositories_ok, project_ok, providers_ok)
          refl
