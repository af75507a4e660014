-- ===== src/Config/Compare/Statuses.antt =====
-- config.ts, scalarStatus: what the status of a compared field says.
use agx.Prelude.{
  ◌≡◌, ◌↔◌, refl, sym, ap, subst, true, false, List, [], ◌∷◌, StrictEq, any, all, All, arith, inl,
  inr, ◌⊎◌,
}
use agx.Facts.{Fact, is_unknown, facts_equal}
use agx.Config.Compare.{ComparisonStatus, fact_status, all_like_first}

module _ {A : Type 0} ⦃e : StrictEq A⦄ where
  -- All facts are known, and have that value.
  abbrev pub AllKnownAs : A → List (Fact A) → Type 0
  AllKnownAs a = All (λ f. f ≡ Fact.known a)

  all-AllKnownAs :
      (a : A) (facts : List (Fact A))
      → all (λ f. facts_equal f (Fact.known a)) facts ≡ true
      → AllKnownAs a facts
  all-AllKnownAs a [] h = tt
  all-AllKnownAs a (Fact.known b ∷ facts) h =
      (ap Fact.known ((e.same_iff b a).0 (ground arith)), all-AllKnownAs a facts (ground arith))
  all-AllKnownAs a (Fact.unknown reason at ∷ facts) h = absurd (cc)

  AllKnownAs-all :
      (a : A) (facts : List (Fact A))
      → AllKnownAs a facts
      → all (λ f. facts_equal f (Fact.known a)) facts ≡ true
  AllKnownAs-all a [] h = refl
  AllKnownAs-all a (f ∷ facts) (k, h) = rw (k, (e.same_iff a a).1 refl) (AllKnownAs-all a facts h)

  AllKnownAs-any :
      (a : A) (facts : List (Fact A)) → AllKnownAs a facts → any is_unknown facts ≡ false
  AllKnownAs-any a [] h = refl
  AllKnownAs-any a (f ∷ facts) (k, h) = rw k (AllKnownAs-any a facts h)

  unknown_iff :
      (facts : List (Fact A))
      → (fact_status facts ≡ ComparisonStatus.unknown) ↔ (any is_unknown facts ≡ true)
  unfolding fact_status all_like_first
  unknown_iff [] = ground arith
  unknown_iff (f ∷ facts) = ground arith

  unfoldable pub Agree : List (Fact A) → Type 0
  Agree facts = (facts ≡ []) ⊎ ((a : A) × AllKnownAs a facts)

  same-Agree : (facts : List (Fact A)) → fact_status facts ≡ ComparisonStatus.same → Agree facts
  unfolding fact_status all_like_first Agree
  same-Agree [] h = inl refl
  same-Agree (Fact.unknown reason at ∷ facts) h = absurd (cc)
  same-Agree (Fact.known a ∷ facts) h =
      inr (a, all-AllKnownAs a (Fact.known a ∷ facts) (ground arith))

  Agree-same : (facts : List (Fact A)) → Agree facts → fact_status facts ≡ ComparisonStatus.same
  unfolding fact_status all_like_first Agree
  Agree-same [] h = refl
  Agree-same (f ∷ facts) (inl h) = absurd (cc)
  Agree-same (f ∷ facts) (inr (a, (k, h))) =
      subst (λ g. fact_status (g ∷ facts) ≡ ComparisonStatus.same) (sym k)
        (rw (AllKnownAs-any a facts h, (e.same_iff a a).1 refl, AllKnownAs-all a facts h) refl)

  -- Facts compare as `unknown` exactly when one is unknown, and as `same` exactly when there is none
  -- or all are known with one value.
  pub fact_status_lem :
      (facts : List (Fact A))
      → ((fact_status facts ≡ ComparisonStatus.unknown) ↔ (any is_unknown facts ≡ true))
        × ((fact_status facts ≡ ComparisonStatus.same) ↔ Agree facts)
  fact_status_lem facts = (unknown_iff facts, (same-Agree facts, Agree-same facts))
