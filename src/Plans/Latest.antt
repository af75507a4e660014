-- ===== src/Plans/Latest.antt =====
-- LaunchPlanRepository.findActiveForClient: the plan of a client that was created last.
use agx.Prelude.{
  String, ◌≡◌, sym, ap, subst, ◌∙◌, Option, none, some, Bool, true, false, [], ◌∷◌, nat_eq, ◌==◌,
  if◌then◌else◌, arith, All, Bool-cases, inl, inr, ◌⊎◌,
}
use agx.Prelude.Text.{text_before}
use agx.Prelude.TextOrder.{text_before_trans, text_before_asym, text_before_irrefl}
use agx.Client.{ClientId}
use agx.Activation.{LaunchPlan}
use agx.Plans.{Plans, client_tag, latest, newer, find_active_for_client}

some-inj : {A : Type 0} {a b : A} → some a ≡ some b → a ≡ b
some-inj e = cc

module _ (client : ClientId) where
  abbrev pub is_of : LaunchPlan → Bool
  is_of plan = client_tag plan.client == client_tag client

  -- No plan of the client in the list was created after that plan.
  abbrev pub Newest : LaunchPlan → Plans → Type 0
  Newest r = All (λ (e : String × LaunchPlan).
      is_of e.1 ≡ true → text_before r.created_at e.1.created_at ≡ false)

  AtLeast : LaunchPlan → Option LaunchPlan → Type 0
  AtLeast r none = Unit
  AtLeast r (some b) = text_before r.created_at b.created_at ≡ false

  newer-AtLeast :
      (best : Option LaunchPlan) (plan r : LaunchPlan)
      → AtLeast r (newer best plan)
      → AtLeast r best × (text_before r.created_at plan.created_at ≡ false)
  unfolding newer AtLeast
  newer-AtLeast none plan r h = (tt, h)
  newer-AtLeast (some b) plan r h = elim (Bool-cases (text_before plan.created_at b.created_at)) [
    | inl earlier ↦
        let ahead = subst (λ t. AtLeast r (if t then some b else some plan)) earlier h in
        (
          ahead,
          text_before_trans r.created_at b.created_at plan.created_at ahead
              (text_before_asym plan.created_at b.created_at earlier),
        )
    | inr later ↦
        let ahead = subst (λ t. AtLeast r (if t then some b else some plan)) later h in
        (text_before_trans r.created_at plan.created_at b.created_at ahead later, ahead)
  ]

  latest-Newest :
      (best : Option LaunchPlan) (m : Plans) (r : LaunchPlan)
      → latest best client m ≡ some r
      → AtLeast r best × Newest r m
  unfolding latest AtLeast
  latest-Newest none [] r e = (tt, tt)
  latest-Newest (some b) [] r e = (ground (arith, text_before_irrefl b.created_at), tt)
  latest-Newest best ((id, plan) ∷ m) r e = elim (Bool-cases (is_of plan)) [
    | inl mine ↦
        let (ahead, rest) = latest-Newest (newer best plan) m r (next mine) in
        let (of_best, of_plan) = newer-AtLeast best plan r ahead in
        (of_best, ((λ _. of_plan), rest))
    | inr other ↦
        let (of_best, rest) = latest-Newest best m r (next other) in
        (of_best, ((λ mine. absurd (ground arith)), rest))
  ]
    where
      next :
          {t : Bool}
          → is_of plan ≡ t
          → latest (if t then newer best plan else best) client m ≡ some r
      next h = ap (λ t. latest (if t then newer best plan else best) client m) (sym h) ∙ e

  abbrev pub Holds : LaunchPlan → Plans → Type 0
  Holds r [] = ⊥
  Holds r ((id, plan) ∷ m) = (plan ≡ r) ⊎ Holds r m

  newer-from :
      (best : Option LaunchPlan) (plan r : LaunchPlan)
      → newer best plan ≡ some r
      → (best ≡ some r) ⊎ (plan ≡ r)
  unfolding newer
  newer-from none plan r e = inr (some-inj e)
  newer-from (some b) plan r e = elim (Bool-cases (text_before plan.created_at b.created_at)) [
    | inl earlier ↦ inl (ap (λ t. if t then some b else some plan) (sym earlier) ∙ e)
    | inr later ↦ inr (some-inj (ap (λ t. if t then some b else some plan) (sym later) ∙ e))
  ]

  latest-from :
      (best : Option LaunchPlan) (m : Plans) (r : LaunchPlan)
      → latest best client m ≡ some r
      → (best ≡ some r) ⊎ ((is_of r ≡ true) × Holds r m)
  unfolding latest
  latest-from best [] r e = inl e
  latest-from best ((id, plan) ∷ m) r e = elim (Bool-cases (is_of plan)) [
    | inl mine ↦ elim (latest-from (newer best plan) m r (next mine)) [
      | inl new ↦ elim (newer-from best plan r new) [
        | inl old ↦ inl old
        | inr this ↦ inr (ap is_of (sym this) ∙ mine, inl this)
      ]
      | inr (of_client, held) ↦ inr (of_client, inr held)
    ]
    | inr other ↦ elim (latest-from best m r (next other)) [
      | inl old ↦ inl old
      | inr (of_client, held) ↦ inr (of_client, inr held)
    ]
  ]
    where
      next :
          {t : Bool}
          → is_of plan ≡ t
          → latest (if t then newer best plan else best) client m ≡ some r
      next h = ap (λ t. latest (if t then newer best plan else best) client m) (sym h) ∙ e

  -- The plan found for a client is a stored plan of that client, and none of its plans was created
  -- later.
  pub find_active-Newest :
      (m : Plans) (r : LaunchPlan)
      → find_active_for_client client m ≡ some r
      → (is_of r ≡ true) × Holds r m × Newest r m
  unfolding find_active_for_client
  find_active-Newest m r e =
      let found : (is_of r ≡ true) × Holds r m = elim (latest-from none m r e) [
        | inl nothing ↦ absurd (cc)
        | inr both ↦ both
      ] in
      (found.0, found.1, (latest-Newest none m r e).1)
