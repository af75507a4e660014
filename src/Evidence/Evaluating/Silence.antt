-- ===== src/Evidence/Evaluating/Silence.antt =====
-- evidence.ts, evaluateEvidence: what it means that no diagnostic was made.
use agx.Prelude.{
  ℕ, String, ◌≡◌, ◌≢◌, refl, ◌∙◌, true, false, Option, none, some, List, [], ◌∷◌, ◌++◌, any, find,
  All, string_eq, ◌==◌, ◌⊎◌, inl, inr, arith, Bool-cases,
}
use agx.Time.{DateParse}
use agx.Evidence.{
  EvidenceObservation, EvaluationInput, EvidencePhase, Category, Diagnostic, RequirementResult,
  is_relevant,
}
use agx.Evidence.Comparing.{same_key, same_observation}
use agx.Evidence.Evaluating.{has, phase_of}
use agx.Evidence.Tallying.{
  Identified, identify, identify_at, Verdict, left_out, flagged, counted, judge, Tally, tally,
  tally_at, unique_diagnostics,
}
use agx.Evidence.Evaluating.Judging.{Counts, judge_lem, left_out_lem}

pub append-nil : {A : Type 0} (xs : List A) (y : A) → xs ++ y ∷ [] ≢ []
append-nil [] y e = absurd (cc)
append-nil (x ∷ xs) y e = absurd (cc)

has-append : (c : Category) (xs ys : List Diagnostic) → has c xs ≡ true → has c (xs ++ ys) ≡ true
has-append c [] ys h = absurd (cc)
has-append c (x ∷ xs) ys h = ground (arith, has-append c xs ys)

has-unique_diagnostics :
    (c : Category) (there ds : List Diagnostic)
    → has c there ≡ true
    → has c (unique_diagnostics there ds) ≡ true
unfolding unique_diagnostics
has-unique_diagnostics c there [] h = h
has-unique_diagnostics c there (d ∷ ds) h =
    elim (Bool-cases (any (λ (t : Diagnostic). t.code == d.code) there)) [
      | inl old ↦ rw old (has-unique_diagnostics c there ds h)
      | inr new ↦
          rw new (has-unique_diagnostics c (there ++ d ∷ []) ds (has-append c there (d ∷ []) h))
    ]

-- A receipt is verified exactly when nothing was said and nothing is missing.
pub phase_verified :
    (ds : List Diagnostic) (missing : List RequirementResult)
    → phase_of ds missing ≡ EvidencePhase.verified
    → (ds ≡ []) × (missing ≡ [])
unfolding phase_of unique_diagnostics
phase_verified [] [] e = (refl, refl)
phase_verified [] (r ∷ missing) e = absurd (cc)
phase_verified (d ∷ ds) missing e =
    elim (Bool-cases (has Category.preflight (unique_diagnostics (d ∷ []) ds))) [
      | inl early ↦ absurd (ground arith)
      | inr clear ↦ absurd (no_such d.category refl clear)
    ]
  where
    no_such :
        (c : Category)
        → d.category ≡ c
        → has Category.preflight (unique_diagnostics (d ∷ []) ds) ≡ false
        → ⊥
    no_such Category.preflight e' clear =
        let first : has Category.preflight (d ∷ []) ≡ true = ground arith in
        absurd (cc (has-unique_diagnostics Category.preflight (d ∷ []) ds first))
    no_such Category.outcome e' clear = ground arith
    no_such Category.freshness e' clear = ground arith

module _ (parse : DateParse) (input : EvaluationInput) (now : String) where
  tally_at-silent :
      (v : Verdict) (o : EvidenceObservation) (t : Tally)
      → (tally_at v o t).diagnostics ≡ []
      → t.diagnostics ≡ []
  unfolding tally_at
  tally_at-silent left_out o t e = e
  tally_at-silent (flagged d) o t e = absurd (append-nil t.diagnostics d e)
  tally_at-silent counted o t e = e

  pub tally-silent :
      (ambiguous os : List EvidenceObservation) (t : Tally)
      → (tally parse input now ambiguous os t).diagnostics ≡ []
      → t.diagnostics ≡ []
  unfolding tally
  tally-silent ambiguous [] t e = e
  tally-silent ambiguous (o ∷ os) t e = elim (Bool-cases (any (λ a. same_key a o) ambiguous)) [
    | inl out ↦ tally-silent ambiguous os t (rw out at e)
    | inr there ↦
        tally_at-silent (judge parse input now o) o t
          (tally-silent ambiguous os (tally_at (judge parse input now o) o t) (rw there at e))
  ]

  -- The observation does not matter for the profile, or it counts.
  abbrev pub Settled : EvidenceObservation → Type 0
  Settled o = (is_relevant input.profile o.kind ≡ false) ⊎ Counts parse input now o

  abbrev pub Dated : EvidenceObservation → Type 0
  Dated o = (t : ℕ) × (parse o.observed_at ≡ some t)

  verdict-Settled :
      (v : Verdict) (o : EvidenceObservation) (t : Tally)
      → judge parse input now o ≡ v
      → Dated o
      → (tally_at v o t).diagnostics ≡ []
      → Settled o
  unfolding tally_at
  verdict-Settled left_out o t j d e = inl (left_out_lem parse input now o j)
  verdict-Settled (flagged g) o t j d e = absurd (append-nil t.diagnostics g e)
  verdict-Settled counted o t j (at, p) e = inr (judge_lem parse input now o at p j)

  -- If nothing was said and nothing is ambiguous, every observation is settled.
  pub tally-Settled :
      (os : List EvidenceObservation) (t : Tally)
      → All Dated os
      → (tally parse input now [] os t).diagnostics ≡ []
      → All Settled os
  unfolding tally
  tally-Settled [] t d e = tt
  tally-Settled (o ∷ os) t (at, d) e = (
    verdict-Settled (judge parse input now o) o t refl at
        (tally-silent [] os (tally_at (judge parse input now o) o t) e),
    tally-Settled os _ d e,
  )

identify_at-silent :
    (p : Option EvidenceObservation) (o : EvidenceObservation) (st : Identified)
    → (identify_at p o st).diagnostics ≡ []
    → (st.diagnostics ≡ []) × ((identify_at p o st).ambiguous ≡ st.ambiguous)
unfolding identify_at
identify_at-silent none o st e = (e, refl)
identify_at-silent (some previous) o st e = elim (Bool-cases (same_observation previous o)) [
  | inl same ↦ rw same (rw same at e, refl)
  | inr other ↦ absurd (append-nil st.diagnostics _ (rw other at e))
]

pub identify-silent :
    (os : List EvidenceObservation) (st : Identified)
    → (identify os st).diagnostics ≡ []
    → (st.diagnostics ≡ []) × ((identify os st).ambiguous ≡ st.ambiguous)
unfolding identify
identify-silent [] st e = (e, refl)
identify-silent (o ∷ os) st e =
    let p = find (λ previous. same_key previous o) st.identity in
    let (quiet, same) = identify-silent os (identify_at p o st) e in
    let (before, same') = identify_at-silent p o st quiet in (before, same ∙ same')
