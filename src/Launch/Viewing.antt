-- ===== src/Launch/Viewing.antt =====
-- launch.ts, findMostRecentActivePlan and getLaunchStatus: what is shown of a launch.
use agx.Prelude.{String, Option, none, some, List, [], ◌∷◌, if◌then◌else◌, nat_eq, ◌==◌}
use agx.Prelude.Text.{texts, text_before}
use agx.Prelude.Optional.{or_else}
use agx.Prelude.Exec.{Exec, pure, throw, ◌>>=◌}
use agx.Facts.{Fact, unknown}
use agx.Client.{ClientId, client_text}
use agx.Activation.{LaunchPlan}
use agx.Activation.Projection.{LaunchStatus, derive_launch_status}
use agx.Plans
use agx.Plans.{Plans, client_tag}
use agx.Queries.{Detail, detail, no_detail}
use agx.Launch.{plan_not_found, compute_known_differences, revision_detail}
use agx.Launch.World.{State, Ports}

-- `candidate.createdAt > newest.createdAt`
more_recent : Option LaunchPlan → Option LaunchPlan → Option LaunchPlan
more_recent newest none = newest
more_recent none candidate = candidate
more_recent (some newest) (some candidate) =
    if text_before newest.created_at candidate.created_at then some candidate else some newest

unfoldable pub find_most_recent : Plans → Option LaunchPlan
unfolding more_recent
find_most_recent m =
    more_recent
      (more_recent (more_recent none (Plans.find_active_for_client ClientId.omp m))
        (Plans.find_active_for_client ClientId.claude_code m))
      (Plans.find_active_for_client ClientId.codex_cli m)

chosen : Option String → Plans → Option LaunchPlan
chosen none m = find_most_recent m
chosen (some id) m = Plans.find_by_id id m

differences_of : Detail → List String
differences_of (detail revision) = compute_known_differences revision
differences_of (no_detail message) = "revision-detail-unavailable-for-status-view" ∷ []

module _ {W : Type 0} (ports : Ports W) where
  shown_differences : LaunchPlan → Exec (State W) (List String)
  shown_differences plan =
      if client_tag plan.client == client_tag ClientId.omp
      then (do found ← revision_detail ports plan.revision_id; pure (differences_of found))
      else pure ("claude-known-differences-not-recomputed-for-status-view" ∷ [])

  detect_claude : Option (Exec (State W) (Fact String)) → LaunchPlan → Exec (State W) (Fact String)
  detect_claude (some detect) plan = detect
  detect_claude none plan = do
    now ← ports.now
    pure (
        unknown (texts ("no-version-detector-available-for-client-" ∷ client_text plan.client ∷ []))
          now)

  shown_version : Option (Fact String) → LaunchPlan → Exec (State W) (Fact String)
  shown_version (some version) plan = pure version
  shown_version none plan =
      if client_tag plan.client == client_tag ClientId.omp
      then ports.detect_omp_version
      else detect_claude ports.detect_claude_version plan

  status_of : Option LaunchPlan → Option String → Option (Fact String) → Exec (State W) LaunchStatus
  status_of none id version = throw (plan_not_found (or_else id "(no active plan)"))
  status_of (some plan) id version = do
    differences ← shown_differences plan
    shown ← shown_version version plan
    pure (derive_launch_status plan shown differences)

  unfoldable pub get_launch_status :
      Option String → Option (Fact String) → Exec (State W) LaunchStatus
  unfolding chosen differences_of shown_differences detect_claude shown_version status_of
  get_launch_status id version s = status_of (chosen id s.plans) id version s
