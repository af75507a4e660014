-- ===== src/Evidence/Evaluating/Judging.antt =====
-- evidence.ts, evaluateEvidence: what a verified receipt says of the observations.
use agx.Prelude.{
  ℕ, ◌-◌, ◌≤◌, ◌<◌, String, ◌≡◌, ◌≢◌, refl, sym, subst, Bool, true, false, not, ◌&&◌, Option, none,
  some, List, [], ◌∷◌, any, All, All-append, ltb, leb, nat_eq, string_eq, ◌==◌, if◌then◌else◌, inl,
  inr, arith, eq_iff, and-split, Bool-cases,
}
use mathlib.Core.List.{Memᴰ}
use agx.Time.{DateParse}
use agx.Evidence.{
  EvidenceObservation, EvaluationInput, ObservationOutcome, Diagnostic, source_for_kind,
  is_relevant, max_age,
}
use agx.Evidence.Comparing.{
  kind_eq, source_eq, outcome_eq, same_key, same_kind_iff, same_source_iff, same_outcome_iff,
}
use agx.Evidence.Tallying.{
  Verdict, left_out, flagged, counted, judge, judge_age, Bucket, add_value, Tally, tally, tally_at,
}

-- The observation was made no later than `now` and less than the maximal age ago.
abbrev pub Fresh : Option ℕ → Option ℕ → Type 0
Fresh observed now =
    (o : ℕ) × (n : ℕ) × (observed ≡ some o) × (now ≡ some n) × (o ≤ n) × (n - o < max_age)

-- What an observation has to be to count for the deployment.
pub record Counts (parse : DateParse) (input : EvaluationInput) (now : String)
    (o : EvidenceObservation) : Type 0 where
  pub own_source : o.source ≡ source_for_kind o.kind
  pub relevant : is_relevant input.profile o.kind ≡ true
  pub same_installation : o.installation_id ≡ input.installation_id
  pub same_deployment : o.deployment_digest ≡ input.deployment_digest
  pub same_subject : o.subject_digest ≡ input.subject_digest
  pub is_matched : o.outcome ≡ ObservationOutcome.matched
  pub fresh : Fresh (parse o.observed_at) (parse now)

age_lem :
    (observed : ℕ) (now : Option ℕ)
    → judge_age (some observed) now ≡ counted
    → Fresh (some observed) now
age_lem o none e = absurd (cc)
age_lem o (some n) e = elim (Bool-cases (ltb n o)) [
  | inl late ↦ absurd (ground arith)
  | inr early ↦ elim (Bool-cases (leb max_age (n - o))) [
    | inl old ↦ absurd (ground arith)
    | inr young ↦ (o, n, refl, refl, ground arith, ground arith)
  ]
]

pass :
    (x : Bool) (v rest : Verdict) {w : Verdict}
    → v ≢ w
    → (if not x then v else rest) ≡ w
    → (x ≡ true) × (rest ≡ w)
pass true v rest ne e = (refl, e)
pass false v rest ne e = absurd (ne e)

flagged-ne : (d : Diagnostic) → flagged d ≢ counted
flagged-ne d e = cc

flagged-ne_left_out : (d : Diagnostic) → flagged d ≢ left_out
flagged-ne_left_out d e = cc

judge_age-ne : (p q : Option ℕ) → judge_age p q ≢ left_out
judge_age-ne none none e = cc
judge_age-ne none (some n) e = cc
judge_age-ne (some o) none e = cc
judge_age-ne (some o) (some n) e = ground arith

left_out-ne : left_out ≢ counted
left_out-ne e = cc

module _ (parse : DateParse) (input : EvaluationInput) (now : String) where
  pub judge_lem :
      (o : EvidenceObservation) (t : ℕ)
      → parse o.observed_at ≡ some t
      → judge parse input now o ≡ counted
      → Counts parse input now o
  unfolding judge
  judge_lem o t p e =
      let (source, e₁) = pass (o.source == source_for_kind o.kind) _ _ (flagged-ne _) e in
      let (relevant, e₂) = pass (is_relevant input.profile o.kind) _ _ left_out-ne e₁ in
      let (installation, e₃) =
        pass (o.installation_id == input.installation_id) _ _ (flagged-ne _) e₂ in
      let (bound, e₄) =
        pass
          (o.deployment_digest == input.deployment_digest
            && o.subject_digest == input.subject_digest)
          _ _ (flagged-ne _) e₃ in
      let (outcome, aged) = pass (o.outcome == ObservationOutcome.matched) _ _ (flagged-ne _) e₄ in
      let (deployment, subject) = and-split _ _ bound in
      record {
        own_source = (same_source_iff o.source (source_for_kind o.kind)).0 source;
        relevant = relevant;
        same_installation = (eq_iff o.installation_id input.installation_id).0 installation;
        same_deployment = (eq_iff o.deployment_digest input.deployment_digest).0 deployment;
        same_subject = (eq_iff o.subject_digest input.subject_digest).0 subject;
        is_matched = (same_outcome_iff o.outcome ObservationOutcome.matched).0 outcome;
        fresh =
            subst (λ p. Fresh p (parse now)) (sym p)
              (age_lem t (parse now) (subst (λ p. judge_age p (parse now) ≡ counted) p aged));
      }

  pub left_out_lem :
      (o : EvidenceObservation)
      → judge parse input now o ≡ left_out
      → is_relevant input.profile o.kind ≡ false
  unfolding judge
  left_out_lem o e =
      let (source, e₁) = pass (o.source == source_for_kind o.kind) _ _ (flagged-ne_left_out _) e in
      elim (Bool-cases (is_relevant input.profile o.kind)) [
        | inl relevant ↦
            let (installation, e₃) =
              pass (o.installation_id == input.installation_id) _ _ (flagged-ne_left_out _)
                (rw relevant at e₁) in
            let (bound, e₄) =
              pass
                (o.deployment_digest == input.deployment_digest
                  && o.subject_digest == input.subject_digest)
                _ _ (flagged-ne_left_out _) e₃ in
            let (outcome, aged) =
              pass (o.outcome == ObservationOutcome.matched) _ _ (flagged-ne_left_out _) e₄ in
            absurd (judge_age-ne (parse o.observed_at) (parse now) aged)
        | inr other ↦ other
      ]

  -- Each of the buckets holds observations of its kind that count.
  abbrev pub Good : List EvidenceObservation → EvidenceObservation → Type 0
  Good os o = Memᴰ o os × Counts parse input now o

  abbrev pub GoodBucket : List EvidenceObservation → Bucket → Type 0
  GoodBucket os b = All (λ o. Good os o × (o.kind ≡ b.kind)) b.values

  add_value-Good :
      (os : List EvidenceObservation) (o : EvidenceObservation) (buckets : List Bucket)
      → Good os o
      → All (GoodBucket os) buckets
      → All (GoodBucket os) (add_value o buckets)
  unfolding add_value
  add_value-Good os o [] g h = (((g, refl), tt), tt)
  add_value-Good os o (b ∷ buckets) g (k, h) = elim (Bool-cases (b.kind == o.kind)) [
    | inl same ↦
        rw same (
          All-append _ b.values (o ∷ []) k ((g, sym ((same_kind_iff b.kind o.kind).0 same)), tt),
          h,
        )
    | inr other ↦ rw other (k, add_value-Good os o buckets g h)
  ]

  pub tally-Good :
      (all_os ambiguous os : List EvidenceObservation) (t : Tally)
      → All (λ o. Memᴰ o all_os × ((t : ℕ) × (parse o.observed_at ≡ some t))) os
      → All (GoodBucket all_os) t.buckets
      → All (GoodBucket all_os) (tally parse input now ambiguous os t).buckets
  unfolding tally tally_at
  tally-Good all_os ambiguous [] t dated g = g
  tally-Good all_os ambiguous (o ∷ os) t ((member, (at, p)), dated) g =
      elim (Bool-cases (any (λ a. same_key a o) ambiguous)) [
        | inl out ↦ rw out (tally-Good all_os ambiguous os t dated g)
        | inr there ↦
            rw there
              (tally-Good all_os ambiguous os _ dated (counted_in (judge parse input now o) refl))
      ]
    where
      counted_in :
          (v : Verdict)
          → judge parse input now o ≡ v
          → All (GoodBucket all_os) (tally_at v o t).buckets
      counted_in left_out e = g
      counted_in (flagged d) e = g
      counted_in counted e = add_value-Good all_os o t.buckets (member, judge_lem o at p e) g
