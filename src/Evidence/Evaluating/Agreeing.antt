-- ===== src/Evidence/Evaluating/Agreeing.antt =====
-- evidence.ts, evaluateEvidence: the revisions of the observations that are counted.
use agx.Prelude.{
  String, ◌≡◌, refl, sym, ap, subst, ◌∙◌, true, false, not, List, [], ◌∷◌, any, string_eq, ◌==◌,
  eq_iff, arith, inl, inr, Bool-cases,
}
use agx.Prelude.Optional.{or_else}
use mathlib.Core.List.{Memᴰ}
use mathlib.Core.List.Memᴰ
use mathlib.Core.List.Memᴰ.{head, tail}
use agx.Time.{DateParse}
use agx.Evidence.{EvidenceObservation, EvaluationInput, requires_revision, is_relevant}
use agx.Evidence.Comparing.{kind_eq, same_kind_iff}
use agx.Evidence.Evaluating.{is_single, drop_ambiguous, revision_of, revisions, mismatched}
use agx.Evidence.Tallying.{
  Verdict, left_out, flagged, counted, judge, Bucket, add_value, Tally, tally, tally_at,
}
use agx.Evidence.Evaluating.Judging.{left_out_lem}
use agx.Evidence.Evaluating.Silence.{append-nil, tally-silent}

-- The observation is in the bucket of its kind.
abbrev pub Holds : EvidenceObservation → List Bucket → Type 0
Holds o buckets = (b : Bucket) × Memᴰ b buckets × (b.kind ≡ o.kind) × Memᴰ o b.values

add_value-Holds : (o : EvidenceObservation) (buckets : List Bucket) → Holds o (add_value o buckets)
unfolding add_value
add_value-Holds o [] = (_, head refl, refl, head refl)
add_value-Holds o (b ∷ buckets) = elim (Bool-cases (b.kind == o.kind)) [
  | inl same ↦
      rw same
        (_, head refl, (same_kind_iff b.kind o.kind).0 same, Memᴰ.append_right b.values (head refl))
  | inr other ↦ let (c, m, k, v) = add_value-Holds o buckets in rw other (c, tail m, k, v)
]

add_value-keeps :
    (o x : EvidenceObservation) (buckets : List Bucket)
    → Holds x buckets
    → Holds x (add_value o buckets)
unfolding add_value
add_value-keeps o x [] (c, m, k, v) = absurd (Memᴰ.not-nil m)
add_value-keeps o x (b ∷ buckets) (c, m, k, v) = elim (Bool-cases (b.kind == o.kind)) [
  | inl same ↦ rw same (elim (Memᴰ.cases_cons m) [
    | inl e ↦ (
      _,
      head refl,
      ap (λ (q : Bucket). q.kind) (sym e) ∙ k,
      Memᴰ.append_left (o ∷ []) (subst (λ (q : Bucket). Memᴰ x q.values) e v),
    )
    | inr n ↦ (c, tail n, k, v)
  ])
  | inr other ↦ rw other (elim (Memᴰ.cases_cons m) [
    | inl e ↦ (c, head e, k, v)
    | inr n ↦ let (d, m', k', v') = add_value-keeps o x buckets (c, n, k, v) in (d, tail m', k', v')
  ])
]

module _ (parse : DateParse) (input : EvaluationInput) (now : String) where
  tally_at-keeps :
      (v : Verdict) (o x : EvidenceObservation) (t : Tally)
      → Holds x t.buckets
      → Holds x (tally_at v o t).buckets
  unfolding tally_at
  tally_at-keeps left_out o x t h = h
  tally_at-keeps (flagged d) o x t h = h
  tally_at-keeps counted o x t h = add_value-keeps o x t.buckets h

  tally-keeps :
      (os : List EvidenceObservation) (x : EvidenceObservation) (t : Tally)
      → Holds x t.buckets
      → Holds x (tally parse input now [] os t).buckets
  unfolding tally
  tally-keeps [] x t h = h
  tally-keeps (o ∷ os) x t h = tally-keeps os x _ (tally_at-keeps (judge parse input now o) o x t h)

  verdict-Holds :
      (v : Verdict) (o : EvidenceObservation) (t : Tally)
      → judge parse input now o ≡ v
      → is_relevant input.profile o.kind ≡ true
      → (tally_at v o t).diagnostics ≡ []
      → Holds o (tally_at v o t).buckets
  unfolding tally_at
  verdict-Holds left_out o t j r e = absurd (cc (left_out_lem parse input now o j))
  verdict-Holds (flagged d) o t j r e = absurd (append-nil t.diagnostics d e)
  verdict-Holds counted o t j r e = add_value-Holds o t.buckets

  -- If nothing was said, each observation that matters is in its bucket.
  pub tally-Holds :
      (os : List EvidenceObservation) (o : EvidenceObservation) (t : Tally)
      → (tally parse input now [] os t).diagnostics ≡ []
      → Memᴰ o os
      → is_relevant input.profile o.kind ≡ true
      → Holds o (tally parse input now [] os t).buckets
  unfolding tally
  tally-Holds [] o t e m r = absurd (Memᴰ.not-nil m)
  tally-Holds (p ∷ os) o t e (head same) r =
      subst (λ q. Holds q (tally parse input now [] (p ∷ os) t).buckets) (sym same)
        (tally-keeps os p _ (
          verdict-Holds (judge parse input now p) p t refl
            (subst (λ (q : EvidenceObservation). is_relevant input.profile q.kind ≡ true) same r)
            (tally-silent parse input now [] os _ e)))
  tally-Holds (p ∷ os) o t e (tail m) r = tally-Holds os o _ e m r

-- If nothing was dropped, all kinds have one observation at most.
pub drop_ambiguous-silent :
    (buckets : List Bucket)
    → (drop_ambiguous buckets).diagnostics ≡ []
    → ((drop_ambiguous buckets).buckets ≡ buckets)
      × ((b : Bucket) → Memᴰ b buckets → is_single b.values ≡ true)
unfolding drop_ambiguous
drop_ambiguous-silent [] e = (refl, (λ b m. absurd (Memᴰ.not-nil m)))
drop_ambiguous-silent (b ∷ buckets) e = elim (Bool-cases (is_single b.values)) [
  | inl single ↦
      let (same, all_single) = drop_ambiguous-silent buckets (rw single at e) in
      (
        rw single (ap (λ l. b ∷ l) same),
        (λ c m. elim (Memᴰ.cases_cons m) [
          | inl k ↦ ap (λ (q : Bucket). is_single q.values) k ∙ single
          | inr n ↦ all_single c n
        ]),
      )
  | inr several ↦ absurd (cc (rw several at e))
]

single-revision :
    (values : List EvidenceObservation) (o : EvidenceObservation)
    → is_single values ≡ true
    → Memᴰ o values
    → Memᴰ (or_else o.ref.revision "") (revision_of values)
single-revision [] o e m = absurd (Memᴰ.not-nil m)
single-revision (v ∷ []) o e (head same) =
    head (ap (λ (q : EvidenceObservation). or_else q.ref.revision "") same)
single-revision (v ∷ []) o e (tail m) = absurd (Memᴰ.not-nil m)
single-revision (v ∷ w ∷ values) o e m = absurd (cc)

pub revisions-has :
    (buckets : List Bucket) (b : Bucket) (o : EvidenceObservation)
    → Memᴰ b buckets
    → is_single b.values ≡ true
    → Memᴰ o b.values
    → requires_revision b.kind ≡ true
    → Memᴰ (or_else o.ref.revision "") (revisions buckets)
unfolding revisions
revisions-has [] b o m e v r = absurd (Memᴰ.not-nil m)
revisions-has (c ∷ buckets) b o (head same) e v r =
    let needed : requires_revision c.kind ≡ true =
      ap (λ (q : Bucket). requires_revision q.kind) (sym same) ∙ r in
    rw needed (
      Memᴰ.append_left _ (
        single-revision c.values o (ap (λ (q : Bucket). is_single q.values) (sym same) ∙ e)
          (subst (λ (q : Bucket). Memᴰ o q.values) same v)))
revisions-has (c ∷ buckets) b o (tail m) e v r = elim (Bool-cases (requires_revision c.kind)) [
  | inl needed ↦
      rw needed (Memᴰ.append_right (revision_of c.values) (revisions-has buckets b o m e v r))
  | inr free ↦ rw free (revisions-has buckets b o m e v r)
]

any-false :
    (r x : String) (rs : List String) → any (λ s. not (s == r)) rs ≡ false → Memᴰ x rs → x ≡ r
any-false r x [] e m = absurd (Memᴰ.not-nil m)
any-false r x (s ∷ rs) e (head same) = same ∙ (eq_iff s r).0 (ground arith)
any-false r x (s ∷ rs) e (tail m) = any-false r x rs (ground arith) m

first-eq : (r x : String) (rs : List String) → mismatched (r ∷ rs) ≡ false → Memᴰ x (r ∷ rs) → x ≡ r
first-eq r x rs e (head same) = same
first-eq r x rs e (tail m) = any-false r x rs e m

-- If no revision differs from the first one, they are all one.
pub mismatched-eq :
    (rs : List String) (x y : String) → mismatched rs ≡ false → Memᴰ x rs → Memᴰ y rs → x ≡ y
mismatched-eq [] x y e m n = absurd (Memᴰ.not-nil m)
mismatched-eq (r ∷ rs) x y e m n = first-eq r x rs e m ∙ sym (first-eq r y rs e n)
