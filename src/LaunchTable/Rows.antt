-- ===== src/LaunchTable/Rows.antt =====
-- launch-repository.ts: the table holds the plans; what its statements do to them.
use agx.Prelude.{
  String, ◌≡◌, refl, sym, ap, ◌∙◌, Option, none, some, true, false, [], ◌∷◌, nat_eq, string_eq,
  ◌==◌, arith, All, eq_iff, Bool-cases, Option-cases, inl, inr,
}
use agx.Prelude.Optional.{◌>>=◌}
use agx.Prelude.Dict.{get, put}
use agx.Facts.{Fact}
use agx.Client.{ClientId, client_text, all_client_ids}
use agx.Activation.{LaunchPhase, ObservedOutcome, LaunchPlan}
use agx.Activation.Names.{phase_text, outcome_text}
use agx.Plans
use agx.Plans.{Plans, same_phase, update_plan}
use agx.LaunchTable.{
  fact_columns, fact_column_to_fact, read_as, all_phases, all_outcomes, plan_row, row_to_plan,
  Table, save, save_if_phase, select, find_by_id,
}

read-client : (c : ClientId) → read_as client_text all_client_ids (client_text c) ≡ some c
read-client ClientId.omp = refl
read-client ClientId.claude_code = refl
read-client ClientId.codex_cli = refl

read-outcome : (o : ObservedOutcome) → read_as outcome_text all_outcomes (outcome_text o) ≡ some o
read-outcome ObservedOutcome.succeeded = refl
read-outcome ObservedOutcome.degraded = refl
read-outcome ObservedOutcome.failed = refl
read-outcome ObservedOutcome.incomplete = refl

read-phase : (a : LaunchPhase) → read_as phase_text all_phases (phase_text a) ≡ some a
read-phase LaunchPhase.prepared = refl
read-phase LaunchPhase.awaiting_confirmation = refl
read-phase LaunchPhase.applying = refl
read-phase LaunchPhase.observing = refl
read-phase LaunchPhase.succeeded = refl
read-phase LaunchPhase.degraded = refl
read-phase LaunchPhase.failed = refl
read-phase LaunchPhase.cancelled = refl
read-phase LaunchPhase.requires_restart = refl
read-phase LaunchPhase.incomplete = refl

read-fact :
    {A : Type 0} (text : A → String) (parse : String → Option A) (f : Fact A)
    → ((a : A) → parse (text a) ≡ some a)
    → fact_column_to_fact parse (fact_columns text f) ≡ some f
read-fact text parse (Fact.known a) h = rw h refl
read-fact text parse (Fact.unknown reason at) h = refl

-- A plan written to a row is read back unchanged.
pub row_to_plan-plan_row : (p : LaunchPlan) → row_to_plan (plan_row p) ≡ some p
unfolding row_to_plan plan_row
row_to_plan-plan_row p =
    rw
      (
        read-client p.client,
        read-phase p.phase,
        read-fact (λ t. t) (λ t. some t) p.confirmed_at (λ t. refl),
        read-fact (λ t. t) (λ t. some t) p.failure_reason (λ t. refl),
        read-fact outcome_text (read_as outcome_text all_outcomes) p.observed_outcome read-outcome,
      )
      refl

phase_text-inj : (a b : LaunchPhase) → phase_text a ≡ phase_text b → a ≡ b
phase_text-inj a b e =
    let both = sym (read-phase a) ∙ ap (read_as phase_text all_phases) e ∙ read-phase b in cc

phase_tag-inj : (a b : LaunchPhase) → Plans.phase_tag a ≡ Plans.phase_tag b → a ≡ b
phase_tag-inj a b e = ground arith

phase_text-eq : (a b : LaunchPhase) → (phase_text a == phase_text b) ≡ same_phase a b
phase_text-eq a b = ground (
  arith,
  eq_iff (phase_text a) (phase_text b),
  phase_text-inj a b,
  phase_tag-inj a b,
  ap phase_text,
)

-- The rows of a table of plans.
abbrev pub rows : Plans → Table
rows [] = []
rows ((id, plan) ∷ m) = plan_row plan ∷ rows m

-- Every plan is stored under its own identifier.
abbrev pub Keyed : Plans → Type 0
Keyed = All (λ (e : String × LaunchPlan). e.0 ≡ e.1.plan_id)

find-rows :
    (id : String) (m : Plans)
    → Keyed m
    → select id (rows m) ≡ (do plan ← get id m; some (plan_row plan))
unfolding select plan_row get
find-rows id [] h = refl
find-rows id ((j, plan) ∷ m) (e, h) = ground (arith, find-rows id m h)

-- What a plan is saved as: a plan that is there keeps the time at which it was created.
abbrev pub kept_created : LaunchPlan → Option LaunchPlan → LaunchPlan
kept_created plan none = plan
kept_created plan (some stored) = record plan { created_at = stored.created_at }

get_skip :
    (id j : String) (p : LaunchPlan) (m : Plans)
    → j ≡ p.plan_id
    → (p.plan_id == id) ≡ false
    → get id ((j, p) ∷ m) ≡ get id m
unfolding get
get_skip id j p m e other = rw (e, other) refl

save-rows :
    (plan : LaunchPlan) (m : Plans)
    → Keyed m
    → save plan (rows m) ≡ rows (put plan.plan_id (kept_created plan (get plan.plan_id m)) m)
unfolding save plan_row get put
save-rows plan [] h = refl
save-rows plan ((j, p) ∷ m) (e, h) = elim (Bool-cases (p.plan_id == plan.plan_id)) [
  | inl this ↦ rw (e, this) refl
  | inr other ↦
      rw (e, other)
        (ap (λ l. plan_row p ∷ l)
          (save-rows plan m h
            ∙ ap (λ o. rows (put plan.plan_id (kept_created plan o) m))
                (sym (get_skip plan.plan_id j p m e other))))
]

-- The plan is not there, or is there with the same time of creation.
abbrev pub SameCreated : LaunchPlan → Plans → Type 0
SameCreated plan m =
    (stored : LaunchPlan) → get plan.plan_id m ≡ some stored → stored.created_at ≡ plan.created_at

kept_created_same :
    (plan : LaunchPlan) (m : Plans)
    → SameCreated plan m
    → kept_created plan (get plan.plan_id m) ≡ plan
kept_created_same plan m same = elim (Option-cases (get plan.plan_id m)) [
  | inl missing ↦ rw missing refl
  | inr (stored, found) ↦ rw (found, same stored found) refl
]

save-rows_same :
    (plan : LaunchPlan) (m : Plans)
    → Keyed m
    → SameCreated plan m
    → save plan (rows m) ≡ rows (Plans.save plan m)
unfolding Plans.save
save-rows_same plan m h same =
    save-rows plan m h ∙ ap (λ p. rows (put plan.plan_id p m)) (kept_created_same plan m same)

-- The entries before the one that is meant stay as they are.
save_if_phase-cons :
    (plan : LaunchPlan) (expected : LaunchPhase) (j : String) (p : LaunchPlan) (m : Plans)
    → (j == plan.plan_id) ≡ false
    → Plans.save_if_phase plan expected ((j, p) ∷ m)
      ≡ (let (b, m') = Plans.save_if_phase plan expected m in (b, (j, p) ∷ m'))
unfolding Plans.save_if_phase get put
save_if_phase-cons plan expected j p m other = elim (Option-cases (get plan.plan_id m)) [
  | inl missing ↦ rw (other, missing) refl
  | inr (stored, found) ↦ elim (Bool-cases (same_phase stored.phase expected)) [
    | inl same ↦ rw (other, found, same) (rw other refl)
    | inr differs ↦ rw (other, found, differs) refl
  ]
]

save_if_phase-here :
    (plan : LaunchPlan) (expected : LaunchPhase) (p : LaunchPlan) (m : Plans)
    → (p.plan_id == plan.plan_id) ≡ true
    → save_if_phase plan expected (rows ((p.plan_id, p) ∷ m))
      ≡ (let (b, m') = Plans.save_if_phase plan expected ((p.plan_id, p) ∷ m) in (b, rows m'))
unfolding save_if_phase plan_row Plans.save_if_phase get put
save_if_phase-here plan expected p m this = elim (Bool-cases (same_phase p.phase expected)) [
  | inl same ↦ rw (this, phase_text-eq p.phase expected, same) (rw this refl)
  | inr differs ↦ rw (this, phase_text-eq p.phase expected, differs) refl
]

save_if_phase-rows :
    (plan : LaunchPlan) (expected : LaunchPhase) (m : Plans)
    → Keyed m
    → save_if_phase plan expected (rows m)
      ≡ (let (b, m') = Plans.save_if_phase plan expected m in (b, rows m'))
unfolding save_if_phase plan_row Plans.save_if_phase get
save_if_phase-rows plan expected [] h = refl
save_if_phase-rows plan expected ((j, p) ∷ m) (e, h) =
    elim (Bool-cases (p.plan_id == plan.plan_id)) [
      | inl this ↦ rw e (save_if_phase-here plan expected p m this)
      | inr other ↦
          rw (e, save_if_phase-cons plan expected p.plan_id p m other)
            (rw (other, save_if_phase-rows plan expected m h) refl)
    ]

Keyed-put :
    (plan q : LaunchPlan) (m : Plans)
    → q.plan_id ≡ plan.plan_id
    → Keyed m
    → Keyed (put plan.plan_id q m)
unfolding put
Keyed-put plan q [] e h = (sym e, tt)
Keyed-put plan q ((j, p) ∷ m) e (k, h) = elim (Bool-cases (j == plan.plan_id)) [
  | inl this ↦ rw this ((eq_iff j plan.plan_id).0 this ∙ sym e, h)
  | inr other ↦ rw other (k, Keyed-put plan q m e h)
]

kept_created-id :
    (plan : LaunchPlan) (old : Option LaunchPlan) → (kept_created plan old).plan_id ≡ plan.plan_id
kept_created-id plan none = refl
kept_created-id plan (some stored) = refl

get-Keyed :
    (id : String) (m : Plans) (plan : LaunchPlan)
    → Keyed m
    → get id m ≡ some plan
    → plan.plan_id ≡ id
unfolding get
get-Keyed id [] plan h e = absurd (cc)
get-Keyed id ((j, p) ∷ m) plan (k, h) e = ground (arith, eq_iff j id, get-Keyed id m plan h)

Keyed-save_if_phase :
    (plan : LaunchPlan) (expected : LaunchPhase) (m : Plans)
    → Keyed m
    → Keyed (Plans.save_if_phase plan expected m).1
unfolding Plans.save_if_phase
Keyed-save_if_phase plan expected m h = elim (Option-cases (get plan.plan_id m)) [
  | inl missing ↦ rw missing h
  | inr (stored, found) ↦ elim (Bool-cases (same_phase stored.phase expected)) [
    | inl same ↦
        rw (found, same)
          (Keyed-put plan (update_plan stored plan) m (get-Keyed plan.plan_id m stored h found) h)
    | inr differs ↦ rw (found, differs) h
  ]
]

find_by_id-rows :
    (id : String) (m : Plans) → Keyed m → find_by_id id (rows m) ≡ Plans.find_by_id id m
unfolding find_by_id Plans.find_by_id
find_by_id-rows id m h = elim (Option-cases (get id m)) [
  | inl missing ↦ rw (find-rows id m h, missing) refl
  | inr (plan, found) ↦ rw (find-rows id m h, found) (row_to_plan-plan_row plan)
]

-- On a table that holds the plans, each under its own identifier, `save` stores the plan under its
-- identifier, with the time of creation of the plan that was there, if there was one; it is thus the
-- operation on the plans whenever the plan is not there or has that time. The statements of
-- `saveIfPhase` and `findById` do to the rows what the operations do to the plans, and what they all
-- leave holds plans under their own identifiers again.
pub rows_lem :
    (plan : LaunchPlan) (expected : LaunchPhase) (id : String) (m : Plans)
    → Keyed m
    → (save plan (rows m) ≡ rows (put plan.plan_id (kept_created plan (get plan.plan_id m)) m))
      × (SameCreated plan m → save plan (rows m) ≡ rows (Plans.save plan m))
      × (save_if_phase plan expected (rows m)
          ≡ (let (b, m') = Plans.save_if_phase plan expected m in (b, rows m')))
      × (find_by_id id (rows m) ≡ Plans.find_by_id id m)
      × Keyed (put plan.plan_id (kept_created plan (get plan.plan_id m)) m)
      × Keyed (Plans.save plan m)
      × Keyed (Plans.save_if_phase plan expected m).1
unfolding Plans.save
rows_lem plan expected id m h = (
  save-rows plan m h,
  save-rows_same plan m h,
  save_if_phase-rows plan expected m h,
  find_by_id-rows id m h,
  Keyed-put plan (kept_created plan (get plan.plan_id m)) m
      (kept_created-id plan (get plan.plan_id m)) h,
  Keyed-put plan plan m refl h,
  Keyed-save_if_phase plan expected m h,
)
