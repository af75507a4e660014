-- ===== src/Claude/Launch/Ending.antt =====
-- claude-launch.ts, launchClaudeFresh: how a launch that returns has ended.
use agx.Prelude.{
  String, ◌≡◌, refl, sym, ap, ◌∙◌, Option, none, some, true, not, List, arith, inl, inr, nat_eq,
  ◌==◌,
}
use agx.Prelude.Dict.{get}
use agx.Prelude.Outcome.{returned}
use agx.Prelude.Exec.{>>=-eq-returned, if-returned, pure-returned, finally_do-returned}
use agx.Prelude.Checked.{Checked, ok, refused}
use agx.Client.{ClientId}
use agx.Config.{StableConfigRevision}
use agx.Activation.{LaunchPhase, LaunchPlan}
use agx.Plans
use agx.Plans.{same_phase, client_tag}
use agx.Queries.{Lookup, Detail, detail, no_detail, detail_of}
use agx.Claude.Capability.{CapabilityNote}
use agx.Launch.{revision_detail}
use agx.Launch.World.{State, Ports}
use agx.Launch.Writes.{same_phase-eq}
use agx.Launch.Running.{attempt_message}
use agx.Claude.Manifest.{Manifest, ManifestResult, compiled, blocked, compile_manifest}
use agx.Claude.AdapterPlan.{compile_adapter_plan}
use agx.Claude.World.{Materialization, ClaudePorts, LaunchOutcome}
use agx.Claude.Delivery.{deliveries_of, blocked_of}
use agx.Claude.Launch.{
  Assembly, launch_materialized, launch_inside, launch_in, launch_compiled, launch_detail,
  launch_found, launch_claude_fresh,
}
use agx.Claude.Launch.Landing.{
  Landed, Assembled, attempt_message-ok, fail_launch-Landed, launch_delivered-Landed,
}

own_client :
    (c : ClientId)
    → client_tag c == client_tag ClientId.claude_code ≡ true
    → c ≡ ClientId.claude_code
own_client c e = ground arith

detail_of-revision :
    (id : String) (lookup : Lookup) (revision : StableConfigRevision)
    → detail_of id lookup ≡ detail revision
    → lookup ≡ Lookup.revision revision
detail_of-revision id (Lookup.revision r) revision e = cc
detail_of-revision id Lookup.missing revision e = absurd (cc)
detail_of-revision id (Lookup.unsupported reason) revision e = absurd (cc)

module _ {W : Type 0} (ports : Ports W) (claude : ClaudePorts W) where
  -- The parts of Assembled, one by one.
  abbrev Found : LaunchPlan → StableConfigRevision → Type 0
  Found plan revision =
      (s : State W) × (s' : State W) × (ports.find_revision plan.revision_id s
        ≡ (returned (Lookup.revision revision), s'))

  abbrev Compiled : StableConfigRevision → Manifest → Type 0
  Compiled revision manifest =
      (notes : List CapabilityNote) × (now : String) × (compile_manifest revision notes now
        ≡ compiled manifest)

  abbrev MadeDir : LaunchPlan → String → Type 0
  MadeDir plan dir =
      (s : State W) × (s' : State W) × (claude.prepare_dir plan.operation_id s ≡ (returned dir, s'))

  revision_found :
      (plan : LaunchPlan) (d : Detail) (s s' : State W)
      → revision_detail ports plan.revision_id s ≡ (returned d, s')
      → (revision : StableConfigRevision) → d ≡ detail revision
      → Found plan revision
  revision_found plan d s s' e revision same =
      let (lookup, looked, is_d) =
        pure-returned (ports.find_revision plan.revision_id) (detail_of plan.revision_id) e in
      (
        s,
        s',
        looked
            ∙ ap (λ l. (returned l, s'))
                (detail_of-revision plan.revision_id lookup revision (is_d ∙ same)),
      )

  launch_inside-Landed :
      (plan : LaunchPlan) (a : Assembly) (o : LaunchOutcome) (s s' : State W)
      → Assembled ports claude plan a
      → launch_inside ports claude plan a s ≡ (returned o, s')
      → Landed ports claude plan o s'
  unfolding launch_inside launch_materialized
  launch_inside-Landed plan a o s s' assembled e =
      let (m, t, done, rest) =
        >>=-eq-returned (attempt_message (claude.materialize a.revision a.dir))
          (λ x. launch_materialized ports claude x plan a) {s = s} e in
      at_contents m t done rest
    where
      at_contents :
          (m : Checked Materialization) (t : State W)
          → attempt_message (claude.materialize a.revision a.dir) s ≡ (returned m, t)
          → launch_materialized ports claude m plan a t ≡ (returned o, s')
          → Landed ports claude plan o s'
      at_contents (refused message) t done e =
          fail_launch-Landed ports claude plan _ _ _ _ _ o t s' e
      at_contents (ok m) t done e =
          launch_delivered-Landed ports claude (blocked_of (deliveries_of a.revision a.manifest m))
            plan a m o t s' assembled
            (s, t, attempt_message-ok (claude.materialize a.revision a.dir) m s t done) e

  -- The removal of the directory leaves the stored plans alone.
  abbrev pub CleansUp : Type 0
  CleansUp = (dir : String) (s : State W) → (claude.cleanup_dir dir s).1.plans ≡ s.plans

  module _ (cleans : CleansUp) where
    launch_in-Landed :
        (c : Checked String) (plan : LaunchPlan) (revision : StableConfigRevision)
        (manifest : Manifest) (o : LaunchOutcome) (s s' : State W)
        → Found plan revision
        → Compiled revision manifest
        → ((dir : String) → c ≡ ok dir → MadeDir plan dir)
        → launch_in ports claude c plan revision manifest (compile_adapter_plan manifest) s
          ≡ (returned o, s')
        → Landed ports claude plan o s'
    unfolding launch_in
    launch_in-Landed (refused message) plan revision manifest o s s' found from made e =
        fail_launch-Landed ports claude plan _ _ _ _ _ o s s' e
    launch_in-Landed (ok dir) plan revision manifest o s s' found from made e =
        let a : Assembly = record {
          revision = revision;
          manifest = manifest;
          adapter = compile_adapter_plan manifest;
          dir = dir;
        } in
        let (t, went, cleaned) =
          finally_do-returned (launch_inside ports claude plan a) (claude.cleanup_dir dir) e in
        let landed =
          launch_inside-Landed plan a o s t
            (record {
              looked = found;
              has_compiled = from;
              adapted = refl;
              made_dir = made dir refl;
            })
            went in
        record {
          same_plan = landed.same_plan;
          is_stored =
              ap (get o.plan.plan_id) (sym (ap (λ x. x.1.plans) cleaned) ∙ cleans dir t)
              ∙ landed.is_stored;
          ends = landed.ends;
        }

    launch_compiled-Landed :
        (c : ManifestResult) (plan : LaunchPlan) (revision : StableConfigRevision)
        (o : LaunchOutcome) (s s' : State W)
        → Found plan revision
        → ((manifest : Manifest) → c ≡ compiled manifest → Compiled revision manifest)
        → launch_compiled ports claude c plan revision s ≡ (returned o, s')
        → Landed ports claude plan o s'
    unfolding launch_compiled
    launch_compiled-Landed (blocked b) plan revision o s s' found from e =
        fail_launch-Landed ports claude plan _ _ _ _ _ o s s' e
    launch_compiled-Landed (compiled manifest) plan revision o s s' found from e =
        let (dir, t, made, rest) =
          >>=-eq-returned (attempt_message (claude.prepare_dir plan.operation_id))
            (λ x. launch_in ports claude x plan revision manifest (compile_adapter_plan manifest))
            {s = s} e in
        launch_in-Landed dir plan revision manifest o t s' found (from manifest refl)
          (λ d same. (
            s,
            t,
            attempt_message-ok (claude.prepare_dir plan.operation_id) d s t
                (made ∙ ap (λ c. (returned c, t)) same),
          ))
          rest

    launch_detail-Landed :
        (d : Detail) (plan : LaunchPlan) (o : LaunchOutcome) (s s' : State W)
        → ((revision : StableConfigRevision) → d ≡ detail revision → Found plan revision)
        → launch_detail ports claude d plan s ≡ (returned o, s')
        → Landed ports claude plan o s'
    unfolding launch_detail
    launch_detail-Landed (no_detail message) plan o s s' found e =
        fail_launch-Landed ports claude plan _ _ _ _ _ o s s' e
    launch_detail-Landed (detail revision) plan o s s' found e =
        let (probed, t, looked, rest) = >>=-eq-returned claude.probe _ e in
        launch_compiled-Landed (compile_manifest revision probed (claude.stamp t)) plan revision o t
          s' (found revision refl) (λ manifest same. (probed, claude.stamp t, same)) rest

    -- A call of `launchClaudeFresh` that returns was given a stored plan for Claude Code that had
    -- been confirmed (in the phase applying); the outcome's plan is that plan, as it is stored, and
    -- either it has failed and the stage is planned, or the stage is observed: for the revision found
    -- for the plan, the manifest compiled from it (the outcome's), the directory made for the plan and
    -- the contents put there, a process was started with the command line they ask for and came back
    -- with a result, and the plan has the outcome and the phase that this result stands for. The
    -- removal of the directory is taken to leave the stored plans alone.
    pub launch_claude-Landed :
        (id : String) (o : LaunchOutcome) (s s' : State W)
        → launch_claude_fresh ports claude id s ≡ (returned o, s')
        → (plan : LaunchPlan) × (get id s.plans ≡ some plan)
          × (plan.client ≡ ClientId.claude_code)
          × (plan.phase ≡ LaunchPhase.applying)
          × Landed ports claude plan o s'
    unfolding launch_claude_fresh launch_found Plans.find_by_id
    launch_claude-Landed id o s s' e = found (get id s.plans) refl e
      where
        found :
            (p : Option LaunchPlan)
            → get id s.plans ≡ p
            → launch_found ports claude p id s ≡ (returned o, s')
            → (plan : LaunchPlan) × (get id s.plans ≡ some plan)
              × (plan.client ≡ ClientId.claude_code)
              × (plan.phase ≡ LaunchPhase.applying)
              × Landed ports claude plan o s'
        found none f e = absurd (cc)
        found (some plan) f e =
            elim (if-returned (not (client_tag plan.client == client_tag ClientId.claude_code)) _ _
              e) [
                | inl (other, thrown_out) ↦ absurd (cc)
                | inr (own, going) ↦
                    elim (if-returned (not (same_phase plan.phase LaunchPhase.applying)) _ _
                      going) [
                        | inl (other, thrown_out) ↦ absurd (cc)
                        | inr (is_applying, launching) ↦
                            let (d, t, detailed, rest) =
                              >>=-eq-returned (revision_detail ports plan.revision_id) _
                                launching in
                            (
                              plan,
                              f,
                              own_client plan.client (ground arith),
                              same_phase-eq plan.phase LaunchPhase.applying (ground arith),
                              launch_detail-Landed d plan o t s'
                                  (revision_found plan d s t detailed) rest,
                            )
                      ]
              ]
