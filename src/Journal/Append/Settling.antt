-- ===== src/Journal/Append/Settling.antt =====
-- appendOperationStep: which steps are accepted, and what they change.
use agx.Prelude.{
  String, ◌∙◌, ℕ, ◌+◌, ◌≡◌, refl, sym, ap, subst, true, List, [], ◌∷◌, some, arith, find,
  Option-cases, inl, inr, if◌then◌else◌, ◌≢◌, ◌↔◌, eq_iff,
}
use agx.Prelude.Outcome.{returned, returned-inj}
use agx.Journal.{
  Step, StepKind, StepPhase, JournalPhase, Journal, is_pending, kind_tag, github_repository,
  update_at,
}
use agx.Journal.Reasons.{reason_ok}
use agx.Journal.Append.{append_step, settle}
use agx.Journal.Numbering.{NumberedFrom, planned, change_first, update_at-eq-change_first}

pub kind_tag_inj : (a b : StepKind) → kind_tag a ≡ kind_tag b → a ≡ b
kind_tag_inj github_repository b e = ground arith
kind_tag_inj _ b e = ground arith

-- The step names the next pending one as it was planned, and its phase and reason are well formed.
pub record Accepts (r : Journal) (step : Step) : Type 0 where
  pub next : Step
  pub is_next : find is_pending r.steps ≡ some next
  pub as_planned : planned step ≡ planned next
  pub not_verified : step.phase ≢ StepPhase.verified
  pub fit_reason : reason_ok step.reason ≡ true

module _ (r : Journal) (step : Step) where
  append_step-Accepts : {r' : Journal} → append_step r step ≡ returned r' → Accepts r step
  unfolding append_step
  append_step-Accepts e = elim (Option-cases (find is_pending r.steps)) [
    | inl nothing ↦ absurd (ground arith)
    | inr (next, found) ↦ record {
      next = next;
      is_next = found;
      as_planned =
          ground (arith, eq_iff step.resource next.resource, kind_tag_inj step.kind next.kind);
      not_verified = ground arith;
      fit_reason = ground arith;
    }
  ]

  append_step-settle :
      Accepts r step
      → append_step r step
        ≡ returned
            (settle step.phase (record r { steps = update_at step.sequence (λ _. step) r.steps }))
  unfolding append_step
  append_step-settle a = ground (arith, eq_iff step.resource a.next.resource)

abbrev pub pending_count : List Step → ℕ
pending_count [] = 0
pending_count (s ∷ steps) = (if is_pending s then 1 else 0) + pending_count steps

pub pending_count-change_first :
    (step : Step) (steps : List Step) (next : Step)
    → find is_pending steps ≡ some next
    → pending_count (change_first is_pending (λ _. step) steps) + 1
      ≡ (if is_pending step then 1 else 0) + pending_count steps
unfolding change_first
pending_count-change_first step [] next e = absurd (cc)
pending_count-change_first step (s ∷ steps) next e =
    ground (arith, pending_count-change_first step steps next)

abbrev pub with_next : Journal → Step → Journal
with_next r step = record r { steps = change_first is_pending (λ _. step) r.steps }

append_step_effect :
    (r : Journal) (step : Step)
    → NumberedFrom 1 r.steps
    → Accepts r step
    → append_step r step ≡ returned (settle step.phase (with_next r step))
append_step_effect r step numbered a =
    let same : step.sequence ≡ a.next.sequence =
      ap (λ (t : ℕ × StepKind × String). t.0) a.as_planned in
    let one : update_at step.sequence (λ _. step) r.steps ≡ (with_next r step).steps =
      ap (λ n. update_at n (λ _. step) r.steps) same
      ∙ update_at-eq-change_first is_pending (λ _. step) 1 r.steps a.next numbered a.is_next in
    append_step-settle r step a
    ∙ ap (λ l. returned (settle step.phase (record r { steps = l }))) one

pub append_step-settle_iff :
    (r r' : Journal) (step : Step)
    → NumberedFrom 1 r.steps
    → (append_step r step ≡ returned r')
      ↔ (Accepts r step × (r' ≡ settle step.phase (with_next r step)))
append_step-settle_iff r r' step numbered = (
  (λ e.
      let a = append_step-Accepts r step e in
      (a, returned-inj (sym e ∙ append_step_effect r step numbered a))),
  (λ (a, e). append_step_effect r step numbered a ∙ ap returned (sym e)),
)

-- The journal after a step is recorded: the step stands for the first pending one. An inconclusive
-- step makes the operation inconclusive, one that needs a cleanup makes it wait for that, each
-- with its next action; any other step leaves the rest of the operation as it was.
pub data Recorded (r : Journal) (step : Step) : Journal → Type 0 where
  is_uncertain :
      step.phase ≡ StepPhase.inconclusive
      → Recorded r step (record r {
        steps = (with_next r step).steps;
        phase = JournalPhase.inconclusive;
        next_action = "observe-remote-state";
      })
  needs_cleanup :
      step.phase ≡ StepPhase.needs_manual_cleanup
      → Recorded r step (record r {
        steps = (with_next r step).steps;
        phase = JournalPhase.needs_manual_cleanup;
        next_action = "manual-cleanup";
      })
  goes_on :
      step.phase ≢ StepPhase.inconclusive
      → step.phase ≢ StepPhase.needs_manual_cleanup
      → Recorded r step (record r { steps = (with_next r step).steps })

settle-Recorded :
    (r r' : Journal) (step : Step) (phase : StepPhase)
    → step.phase ≡ phase
    → r' ≡ settle phase (with_next r step)
    → Recorded r step r'
unfolding settle
settle-Recorded r r' step StepPhase.inconclusive e same =
    subst (λ x. Recorded r step x) (sym same) (is_uncertain e)
settle-Recorded r r' step StepPhase.needs_manual_cleanup e same =
    subst (λ x. Recorded r step x) (sym same) (needs_cleanup e)
settle-Recorded r r' step _ e same =
    subst (λ x. Recorded r step x) (sym same) (goes_on (λ u. ground arith) (λ u. ground arith))

Recorded-settle :
    (r : Journal) (step : Step) (r' : Journal)
    → Recorded r step r'
    → r' ≡ settle step.phase (with_next r step)
unfolding settle
Recorded-settle r step _ (is_uncertain e) = rw e refl
Recorded-settle r step _ (needs_cleanup e) = rw e refl
Recorded-settle r step _ (goes_on a b) = other step.phase a b
  where
    other :
        (phase : StepPhase)
        → phase ≢ StepPhase.inconclusive
        → phase ≢ StepPhase.needs_manual_cleanup
        → with_next r step ≡ settle phase (with_next r step)
    other StepPhase.inconclusive a b = absurd (a refl)
    other StepPhase.needs_manual_cleanup a b = absurd (b refl)
    other _ a b = refl

-- On a numbered journal a step is accepted exactly when it names the first pending step as it was
-- planned, is not `verified` and carries a well-formed reason or none. It then replaces that one
-- step; an inconclusive step, or one that needs a cleanup, moves the operation to the phase of its
-- name and sets the next action for it, and after any other step all else is as it was.
pub append_step_iff :
    (r r' : Journal) (step : Step)
    → NumberedFrom 1 r.steps
    → (append_step r step ≡ returned r') ↔ (Accepts r step × Recorded r step r')
append_step_iff r r' step numbered =
    let at_settle = append_step-settle_iff r r' step numbered in
    (
      (λ e. let (a, same) = at_settle.0 e in (a, settle-Recorded r r' step step.phase refl same)),
      (λ (a, recorded). at_settle.1 (a, Recorded-settle r step r' recorded)),
    )
