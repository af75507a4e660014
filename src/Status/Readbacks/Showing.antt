-- ===== src/Status/Readbacks/Showing.antt =====
-- domain/status.ts: a step that is met is shown to be in place by one of the readbacks.
use agx.Prelude.{
  ◌≡◌, refl, sym, ◌∙◌, Bool, true, false, not, ◌&&◌, ◌||◌, List, [], ◌∷◌, ◌++◌, map, any, All,
  string_eq, arith, eq_iff, nat_beq_iff, Bool-cases, and-split, inl, inr,
}
use mathlib.Core.List.{Memᴰ}
use mathlib.Core.List.Memᴰ.{head, tail}
use agx.Journal.{Step}
use agx.Status.{ReadbackOutcome, Readback, kind_tag, has_outcome}
use agx.Status.Readbacks.{
  valid_readback, scan, insert_readback, sort_readbacks, summary_of, readback_summaries,
  readback_before, same_resource,
}
use agx.Status.Diagnostics.{kind_of, lacks, is_met, meets}

-- A readback that shows what the step was to bring about.
pub record Shows (step : Step) (readbacks : List Readback) : Type 0 where
  pub readback : Readback
  pub read : Memᴰ readback readbacks
  pub valid : valid_readback readback ≡ true
  pub same_kind : kind_tag readback.kind ≡ kind_tag (kind_of step.kind)
  pub same_id : readback.resource_id ≡ step.resource
  pub matched : readback.outcome ≡ ReadbackOutcome.matched

pub all_met :
    (steps : List Step) (resources : List Readback)
    → lacks steps resources ≡ false
    → All (λ step. is_met resources step ≡ true) steps
all_met [] resources e = tt
all_met (step ∷ steps) resources e =
    let first : is_met resources step ≡ true = ground arith in
    let others : lacks steps resources ≡ false = ground arith in
    (first, all_met steps resources others)

any-summary_of :
    (step : Step) (readbacks : List Readback)
    → any (meets step) (map summary_of readbacks) ≡ any (meets step) readbacks
any-summary_of step [] = refl
any-summary_of step (r ∷ readbacks) = rw (any-summary_of step readbacks) refl

module _ (p : Readback → Bool) where
  any-insert_readback :
      (r : Readback) (readbacks : List Readback)
      → any p (insert_readback r readbacks) ≡ (p r || any p readbacks)
  unfolding insert_readback
  any-insert_readback r [] = refl
  any-insert_readback r (q ∷ readbacks) = elim (Bool-cases (readback_before q r)) [
    | inl before ↦ rw (before, any-insert_readback r readbacks) (ground arith)
    | inr after ↦ rw after refl
  ]

  any-sort_readbacks :
      (readbacks : List Readback) → any p (sort_readbacks readbacks) ≡ any p readbacks
  unfolding sort_readbacks
  any-sort_readbacks [] = refl
  any-sort_readbacks (r ∷ readbacks) =
      rw (any-insert_readback r (sort_readbacks readbacks), any-sort_readbacks readbacks) refl

  any-append : (xs : List Readback) (r : Readback) → any p (xs ++ r ∷ []) ≡ (any p xs || p r)
  any-append [] r = ground arith
  any-append (x ∷ xs) r = rw (any-append xs r) (ground arith)

  -- A valid one of the readbacks has the property.
  record Found (readbacks : List Readback) : Type 0 where
    readback : Readback
    read : Memᴰ readback readbacks
    valid : valid_readback readback ≡ true
    holds : p readback ≡ true

  later : (r : Readback) (readbacks : List Readback) → Found readbacks → Found (r ∷ readbacks)
  later r readbacks f = record {
    readback = f.readback;
    read = tail f.read;
    valid = f.valid;
    holds = f.holds;
  }

  any-scan :
      (valid readbacks : List Readback)
      → any p (scan valid readbacks).valid ≡ true
      → any p valid ≡ false
      → Found readbacks
  unfolding scan
  any-scan valid [] e none_before = absurd (cc)
  any-scan valid (r ∷ readbacks) e none_before =
      elim (Bool-cases (valid_readback r && not (any (same_resource r) valid))) [
        | inl new ↦ elim (Bool-cases (p r)) [
          | inl yes_first ↦ record {
            readback = r;
            read = head refl;
            valid = (and-split _ _ new).0;
            holds = yes_first;
          }
          | inr not_first ↦ later r readbacks (
              any-scan (valid ++ r ∷ []) readbacks (rw new at e)
                (any-append valid r ∙ rw (none_before, not_first) refl))
        ]
        | inr old ↦ later r readbacks (any-scan valid readbacks (rw old at e) none_before)
      ]

matched-eq :
    (r : Readback)
    → has_outcome ReadbackOutcome.matched r ≡ true
    → r.outcome ≡ ReadbackOutcome.matched
matched-eq r e = ground arith

met-Shows :
    (step : Step) (readbacks : List Readback)
    → is_met (readback_summaries readbacks).resources step ≡ true
    → Shows step readbacks
unfolding readback_summaries
met-Shows step readbacks e =
    let scanned = (scan [] readbacks).valid in
    let sorted = any-sort_readbacks (meets step) scanned in
    let f =
      any-scan (meets step) [] readbacks
        (sym (any-summary_of step (sort_readbacks scanned) ∙ sorted) ∙ e) refl in
    let (left, outcome) = and-split _ _ f.holds in
    let (kind, id) = and-split _ _ left in
    record {
      readback = f.readback;
      read = f.read;
      valid = f.valid;
      same_kind = (nat_beq_iff _ _).0 kind;
      same_id = (eq_iff _ _).0 id;
      matched = matched-eq f.readback outcome;
    }

pub all_Shows :
    (steps : List Step) (readbacks : List Readback)
    → All (λ step. is_met (readback_summaries readbacks).resources step ≡ true) steps
    → All (λ step. Shows step readbacks) steps
all_Shows [] readbacks h = tt
all_Shows (step ∷ steps) readbacks (m, h) =
    (met-Shows step readbacks m, all_Shows steps readbacks h)
