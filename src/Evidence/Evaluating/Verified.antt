-- ===== src/Evidence/Evaluating/Verified.antt =====
-- evidence.ts, evaluateEvidence: a verified receipt stands on observations that count.
use agx.Prelude.{
  String, ◌≡◌, refl, sym, ap, subst, ◌∙◌, Bool, true, false, not, some, List, [], ◌∷◌, ◌++◌, find,
  All, ◌==◌, inl, inr, arith, Bool-cases, Option-cases, and-split,
}
use mathlib.Core.List.{Memᴰ}
use mathlib.Core.List.Memᴰ
use mathlib.Core.List.Memᴰ.{head, tail}
use agx.Prelude.Optional.{or_else}
use agx.Prelude.Lists.{append-nil_left}
use agx.Time.{DateParse}
use agx.Evidence.{
  EvidenceKind, EvidenceObservation, EvaluationInput, EvidencePhase, Requirement, requirement_set,
  requires_revision, is_relevant, Diagnostic,
}
use agx.Evidence.Validating.{validate_observation, validate_ref, is_some}
use agx.Evidence.Comparing.{kind_eq, same_kind_iff}
use agx.Evidence.Evaluating.{
  head_of, sort_by, drop_ambiguous, mismatched, revisions, value_of, usable_at, select, find_at,
  find_evidence, is_single, assess, evaluate_at, evaluate_evidence, mismatch_diagnostic,
}
use agx.Evidence.Tallying.{
  Bucket, Tally, Identified, identify, tally, diag_if, invalid_diagnostics, envelope_diagnostics,
}
use agx.Evidence.Evaluating.Judging.{Counts, Good, GoodBucket, tally-Good}
use agx.Evidence.Evaluating.Silence.{
  phase_verified, tally-silent, Settled, Dated, tally-Settled, identify-silent,
}
use agx.Evidence.Evaluating.Agreeing.{
  Holds, tally-Holds, drop_ambiguous-silent, revisions-has, mismatched-eq,
}
use agx.Evidence.Evaluating.Members.{
  All-Mem, Mem-All, sort_by-Mem, identify-Mem, identify-has, find-Mem,
}

drop_ambiguous-All :
    (P : Bucket → Type 0) (buckets : List Bucket)
    → All P buckets
    → All P (drop_ambiguous buckets).buckets
unfolding drop_ambiguous
drop_ambiguous-All P [] h = tt
drop_ambiguous-All P (b ∷ buckets) (p, h) = elim (Bool-cases (is_single b.values)) [
  | inl single ↦ rw single (p, drop_ambiguous-All P buckets h)
  | inr several ↦ rw several (drop_ambiguous-All P buckets h)
]

find-holds : {A : Type 0} (p : A → Bool) (xs : List A) (x : A) → find p xs ≡ some x → p x ≡ true
find-holds p [] x e = absurd (cc)
find-holds p (y ∷ ys) x e = elim (Bool-cases (p y)) [
  | inl here ↦ let same : y ≡ x = cc (rw here at e) in ap p (sym same) ∙ here
  | inr there ↦ find-holds p ys x (rw there at e)
]

module _ (parse : DateParse) (input : EvaluationInput) (now : String) where
  -- An observation of the input, of one of the kinds, that counts.
  abbrev pub Shown : List EvidenceKind → Type 0
  Shown kinds =
      (o : EvidenceObservation) × Memᴰ o input.observations
      × Memᴰ o.kind kinds
      × Counts parse input now o

  -- What a verified receipt stands on.
  pub record Stands : Type 0 where
    pub shown : All (λ (r : Requirement). Shown r.kinds) (requirement_set input.profile)
    pub settled : (o : EvidenceObservation) → Memᴰ o input.observations → Settled parse input now o
    pub agreed :
        (o p : EvidenceObservation)
        → Memᴰ o input.observations
        → Memᴰ p input.observations
        → is_relevant input.profile o.kind ≡ true
        → is_relevant input.profile p.kind ≡ true
        → requires_revision o.kind ≡ true
        → requires_revision p.kind ≡ true
        → or_else o.ref.revision "" ≡ or_else p.ref.revision ""

  value_of-Good :
      (os : List EvidenceObservation) (kind : EvidenceKind) (buckets : List Bucket)
      (o : EvidenceObservation)
      → All (GoodBucket parse input now os) buckets
      → value_of kind buckets ≡ some o
      → Good parse input now os o × (o.kind ≡ kind)
  value_of-Good os kind buckets o g e =
      elim (Option-cases (find (λ (b : Bucket). b.kind == kind) buckets)) [
        | inl none_there ↦ absurd (cc (rw none_there at e))
        | inr (b, found) ↦
            let own = (same_kind_iff b.kind kind).0 (find-holds _ buckets b found) in
            let good =
              Mem-All (GoodBucket parse input now os) buckets b (find-Mem _ buckets b found) g in
            first b own b.values good (rw found at e)
      ]
    where
      first :
          (b : Bucket)
          → b.kind ≡ kind
          → (values : List EvidenceObservation)
          → All (λ o. Good parse input now os o × (o.kind ≡ b.kind)) values
          → head_of values ≡ some o
          → Good parse input now os o × (o.kind ≡ kind)
      first b own [] good f = absurd (cc)
      first b own (v ∷ values) ((good, kinds), rest) f =
          let same : v ≡ o = cc in
          subst (λ o. Good parse input now os o × (o.kind ≡ kind)) same (good, kinds ∙ own)

  select-Shown :
      (os : List EvidenceObservation) (kinds : List EvidenceKind) (buckets : List Bucket)
      (mismatch : Bool) (o : EvidenceObservation)
      → All (GoodBucket parse input now os) buckets
      → select kinds buckets mismatch ≡ some o
      → Good parse input now os o × Memᴰ o.kind kinds
  unfolding select
  select-Shown os [] buckets mismatch o g e = absurd (cc)
  select-Shown os (kind ∷ kinds) buckets mismatch o g e =
      elim (Bool-cases (usable_at mismatch (value_of kind buckets))) [
        | inl usable ↦
            let (good, same) = value_of-Good os kind buckets o g (rw usable at e) in
            (good, head same)
        | inr other ↦
            let (good, member) = select-Shown os kinds buckets mismatch o g (rw other at e) in
            (good, tail member)
      ]

  find_evidence-Shown :
      (os : List EvidenceObservation) (requirements : List Requirement) (buckets : List Bucket)
      (mismatch : Bool)
      → All (GoodBucket parse input now os) buckets
      → ((o : EvidenceObservation) → Memᴰ o os → Memᴰ o input.observations)
      → (find_evidence requirements buckets mismatch).missing ≡ []
      → All (λ (r : Requirement). Shown r.kinds) requirements
  unfolding find_evidence find_at
  find_evidence-Shown os [] buckets mismatch g inside e = tt
  find_evidence-Shown os (r ∷ requirements) buckets mismatch g inside e =
      elim (Option-cases (select r.kinds buckets mismatch)) [
        | inl none_there ↦ absurd (cc (rw none_there at e))
        | inr (o, found) ↦
            let ((member, counts), kind) = select-Shown os r.kinds buckets mismatch o g found in
            (
              (o, inside o member, kind, counts),
              find_evidence-Shown os requirements buckets mismatch g inside (rw found at e),
            )
      ]

  diag_if-nil : (b : Bool) (code : String) → diag_if b code ≡ [] → b ≡ false
  diag_if-nil true code e = absurd (cc)
  diag_if-nil false code e = refl

  valid-Dated :
      (o : EvidenceObservation) → validate_observation parse o ≡ true → Dated parse input now o
  unfolding validate_observation
  valid-Dated o v =
      let (dated, ref) = and-split _ (validate_ref o.kind o.ref) v in
      let (rest, finite) = and-split _ (is_some (parse o.observed_at)) dated in
      elim (Option-cases (parse o.observed_at)) [
        | inl none_there ↦ absurd (cc (rw none_there at finite))
        | inr (t, there) ↦ (t, there)
      ]

  all-Dated :
      (os : List EvidenceObservation)
      → invalid_diagnostics parse os ≡ []
      → (o : EvidenceObservation) → Memᴰ o os
      → Dated parse input now o
  unfolding invalid_diagnostics
  all-Dated [] e o m = absurd (Memᴰ.not-nil m)
  all-Dated (p ∷ os) e o m =
      let (first, rest) = append-nil_left (diag_if (not (validate_observation parse p)) _) _ e in
      elim (Memᴰ.cases_cons m) [
        | inl same ↦
            subst (λ q. Dated parse input now q) (sym same)
              (valid-Dated p (ground (arith, diag_if-nil _ _ first)))
        | inr n ↦ all-Dated os rest o n
      ]

  envelope-Dated :
      envelope_diagnostics parse input ≡ []
      → (o : EvidenceObservation) → Memᴰ o input.observations
      → Dated parse input now o
  unfolding envelope_diagnostics
  envelope-Dated e = all-Dated input.observations (append-nil_left _ _ e).1

  module _ (before : EvidenceObservation → EvidenceObservation → Bool) where
    abbrev identified : Identified
    identified =
        identify (sort_by before input.observations)
          (record { identity = []; ambiguous = []; diagnostics = [] })

    identified-inside :
        (o : EvidenceObservation) → Memᴰ o identified.identity → Memᴰ o input.observations
    identified-inside o m = elim (identify-Mem (sort_by before input.observations) o _ m) [
      | inl n ↦ absurd (Memᴰ.not-nil n)
      | inr n ↦ (sort_by-Mem before o input.observations).0 n
    ]

    identified-has :
        (o : EvidenceObservation)
        → identified.diagnostics ≡ []
        → Memᴰ o input.observations
        → Memᴰ o identified.identity
    identified-has o e m =
        identify-has (sort_by before input.observations) o _ e
          ((sort_by-Mem before o input.observations).1 m)

    unmismatched : (b : Bool) → mismatch_diagnostic b ≡ [] → b ≡ false
    unmismatched true e = absurd (cc)
    unmismatched false e = refl

    identified-revision :
        let start : Tally = record { diagnostics = identified.diagnostics; buckets = [] } in
        let tallied = tally parse input now identified.ambiguous identified.identity start in
        identified.ambiguous ≡ []
        → tallied.diagnostics ≡ []
        → (drop_ambiguous tallied.buckets).diagnostics ≡ []
        → (o : EvidenceObservation) → Memᴰ o identified.identity
        → is_relevant input.profile o.kind ≡ true
        → requires_revision o.kind ≡ true
        → Memᴰ (or_else o.ref.revision "") (revisions (drop_ambiguous tallied.buckets).buckets)
    identified-revision clear said dropped o m relevant needed =
        let start : Tally = record { diagnostics = identified.diagnostics; buckets = [] } in
        let tallied = tally parse input now identified.ambiguous identified.identity start in
        let (same, single) = drop_ambiguous-silent tallied.buckets dropped in
        let said' : (tally parse input now [] identified.identity start).diagnostics ≡ [] =
          subst (λ a. (tally parse input now a identified.identity start).diagnostics ≡ []) clear
            said in
        let (b, in_buckets, kind, inside) =
          subst (λ a. Holds o (tally parse input now a identified.identity start).buckets)
            (sym clear)
            (tally-Holds parse input now identified.identity o start said' m relevant) in
        subst (λ l. Memᴰ (or_else o.ref.revision "") (revisions l)) (sym same)
          (revisions-has tallied.buckets b o in_buckets (single b in_buckets) inside
            (ap requires_revision kind ∙ needed))

    assess_verified :
        ((o : EvidenceObservation) → Memᴰ o input.observations → Dated parse input now o)
        → (assess parse before input now).phase ≡ EvidencePhase.verified
        → Stands
    unfolding assess
    assess_verified dated e =
        let known = identified in
        let start : Tally = record { diagnostics = known.diagnostics; buckets = [] } in
        let tallied = tally parse input now known.ambiguous known.identity start in
        let kept = drop_ambiguous tallied.buckets in
        let mismatch = mismatched (revisions kept.buckets) in
        let (silent, complete) = phase_verified _ _ e in
        let (said, unsaid) = append-nil_left (tallied.diagnostics ++ kept.diagnostics) _ silent in
        let (tally_said, kept_said) = append-nil_left tallied.diagnostics _ said in
        let inside_dated =
          All-Mem (Dated parse input now) known.identity (λ o m. dated o (identified-inside o m)) in
        let good =
          tally-Good parse input now known.identity known.ambiguous known.identity start
            (All-Mem _ known.identity (λ o m. (m, dated o (identified-inside o m)))) tt in
        let unsaid_before =
          tally-silent parse input now known.ambiguous known.identity start tally_said in
        let (_, clear) = identify-silent (sort_by before input.observations) _ unsaid_before in
        let settled_all = tally-Settled parse input now known.identity start inside_dated (
          subst (λ a. (tally parse input now a known.identity start).diagnostics ≡ []) clear
            tally_said) in
        record {
          shown =
              find_evidence-Shown known.identity (requirement_set input.profile) kept.buckets
                mismatch
                (drop_ambiguous-All (GoodBucket parse input now known.identity) tallied.buckets
                  good)
                identified-inside complete;
          settled = λ o m.
              Mem-All (Settled parse input now) known.identity o (identified-has o unsaid_before m)
                settled_all;
          agreed = λ o p m n r q f g.
              mismatched-eq (revisions kept.buckets) _ _ (unmismatched mismatch unsaid)
                (identified-revision clear tally_said kept_said o (identified-has o unsaid_before m)
                  r f)
                (identified-revision clear tally_said kept_said p (identified-has p unsaid_before n)
                  q g);
        }

    -- A receipt is verified only if each requirement of the profile is met by an observation that
    -- counts: of a kind asked for, from its source, for this installation, deployment and subject,
    -- matched, and fresh; every observation of the input that matters for the profile counts; and
    -- those that name a revision all name one.
    pub verified_sound :
        (evaluate_evidence parse before input now).phase ≡ EvidencePhase.verified → Stands
    unfolding evaluate_evidence evaluate_at
    verified_sound e = split (envelope_diagnostics parse input) refl e
      where
        split :
            (ds : List Diagnostic)
            → envelope_diagnostics parse input ≡ ds
            → (evaluate_at parse before ds input now).phase ≡ EvidencePhase.verified
            → Stands
        split [] d e = assess_verified (envelope-Dated d) e
        split (g ∷ ds) d e = absurd (cc)
