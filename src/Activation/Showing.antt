-- ===== src/Activation/Showing.antt =====
-- activation.ts, deriveLaunchStatus: a result is shown only for a launch that was confirmed and seen.
use agx.Prelude.{String, ◌≡◌, Bool, true, false, List, arith}
use agx.Facts.{Fact, known, is_known}
use agx.Activation.{
  LaunchPhase, LaunchPlan, LaunchPlanEvent, CreateLaunchPlanParams, create_launch_plan,
}
use agx.Activation.History.{Runs}
use agx.Activation.Soundness.{consistent, Runs-sound}
use agx.Activation.Projection.{Applied, derive_apply_result, derive_launch_status}

-- The phases in which a plan may be shown with that result.
abbrev pub shown_in : Applied → LaunchPhase → Bool
shown_in Applied.applied LaunchPhase.succeeded = true
shown_in Applied.degraded LaunchPhase.degraded = true
shown_in _ LaunchPhase.requires_restart = true
shown_in _ _ = false

consistent_shown :
    (q : LaunchPlan) (a : Applied)
    → consistent q ≡ true
    → derive_apply_result q ≡ known a
    → (is_known q.confirmed_at ≡ true) × (shown_in a q.phase ≡ true)
unfolding derive_apply_result
consistent_shown q a c e = ground arith

-- For every plan that comes about from a new one: if its status shows that the configuration was
-- applied, or applied in part, then the plan was confirmed, and the status shows the phase of that
-- outcome, or that a restart is required.
pub launch_status_sound :
    (params : CreateLaunchPlanParams) (events : List LaunchPlanEvent) (q : LaunchPlan)
    (version : Fact String) (differences : List String) (a : Applied)
    → Runs (create_launch_plan params) events q
    → (derive_launch_status q version differences).apply_result ≡ known a
    → (is_known q.confirmed_at ≡ true)
      × (shown_in a (derive_launch_status q version differences).phase ≡ true)
unfolding derive_launch_status
launch_status_sound params events q version differences a runs e =
    consistent_shown q a (Runs-sound params events q runs).0 e
