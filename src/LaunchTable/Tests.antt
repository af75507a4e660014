-- ===== src/LaunchTable/Tests.antt =====
-- A table with one plan that awaits its confirmation.
use agx.Prelude.{◌≡◌, refl, some, [], ◌∷◌}
use agx.Prelude.Dict
use agx.Activation.{LaunchPhase, LaunchPlan}
use agx.Activation.Tests.{awaiting, applying}
use agx.Plans
use agx.Plans.{Plans}
use agx.Client.{ClientId}
use agx.LaunchTable.{save, save_if_phase, find_by_id, plan_row, row_to_plan}
use agx.LaunchTable.Rows.{rows, Keyed, SameCreated, rows_lem, row_to_plan-plan_row}

abbrev one : Plans
one = ("plan-1", awaiting) ∷ []

-- the plan as it would be saved, with another time of creation
abbrev later : LaunchPlan
later = record applying { created_at = "2026-02-01T00:00:00.000Z" }

rows_example :
    (save later (rows one) ≡ rows (("plan-1", applying) ∷ []))
    × (SameCreated later one → save later (rows one) ≡ rows (Plans.save later one))
    × (save_if_phase later LaunchPhase.awaiting_confirmation (rows one) ≡ (
        let (b, m') = Plans.save_if_phase later LaunchPhase.awaiting_confirmation one in
        (b, rows m')))
    × (find_by_id "plan-1" (rows one) ≡ Plans.find_by_id "plan-1" one)
    × Keyed (("plan-1", applying) ∷ [])
    × Keyed (Plans.save later one)
    × Keyed (Plans.save_if_phase later LaunchPhase.awaiting_confirmation one).1
unfolding Dict.get Dict.put
rows_example = rows_lem later LaunchPhase.awaiting_confirmation "plan-1" one (refl, tt)

row_to_plan_example : row_to_plan (plan_row awaiting) ≡ some awaiting
row_to_plan_example = row_to_plan-plan_row awaiting

found : Plans.find_active_for_client ClientId.omp one ≡ some awaiting
unfolding Plans.find_active_for_client
found = refl
