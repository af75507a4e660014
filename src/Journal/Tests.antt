-- ===== src/Journal/Tests.antt =====
-- Runs of the journal's operations on a plan of two steps.
use agx.Prelude.{String, ◌≡◌, refl, none, some, [], ◌∷◌, ◌++◌, if◌then◌else◌, ◌==◌, string_eq, ◌≢◌}
use agx.Prelude.Dict.{get}
use agx.Prelude.Text.{is_blank, is_hex_of, units}
use agx.Prelude.Outcome.{returned, thrown}
use agx.Time.{DateParse}
use agx.Journal.{
  Step, StepPhase, JournalPhase, Journal, PlanInput, Resolution, matched, github_repository,
  github_project, is_open, update_at,
}
use agx.Journal.Reasons.{reason_ok, is_slug}
use agx.Journal.Plan.{create_journal, is_resource_id}
use agx.Journal.Plan.Realising.{new_journal, create_journal_lem}
use agx.Journal.Append.{append_step, settle}
use agx.Journal.Append.Settling.{Accepts, append_step_iff, Recorded}
use agx.Journal.Resolve.{resolve_inconclusive, binds, is_fresh, record_resolution, past, reopen}
use agx.Journal.Resolve.Resolving.{Settles, resolve_lem}
use agx.Journal.Run.{start_journal}
use agx.Journal.Numbering.{NumberedFrom, change_first}
use agx.Journal.History.{here, next, appended, Continues, Edits-Continues}
use agx.JournalStore.{edit}
use agx.JournalStore.Keeping.{edit_iff}

abbrev pub two_steps : PlanInput
two_steps = record {
  operation_id = "op-1";
  deployment_id = "dep-1";
  revision_id = "rev-1";
  steps =
      record { kind = github_repository; resource = "acme/app" }
      ∷ record { kind = github_project; resource = "install-1" }
      ∷ [];
}

abbrev pub fresh : Journal
fresh = new_journal two_steps

abbrev pub fresh-NumberedFrom : NumberedFrom 1 fresh.steps
fresh-NumberedFrom = (refl, (refl, tt))

create_journal_example : create_journal two_steps ≡ returned fresh
unfolding is_blank is_resource_id
create_journal_example = create_journal_lem two_steps

abbrev uncertain_step : Step
uncertain_step = record {
  sequence = 1;
  kind = github_repository;
  resource = "acme/app";
  phase = StepPhase.inconclusive;
  reason = some "repository-readback-inconclusive";
}

abbrev pub uncertain : Journal
uncertain = record fresh {
  phase = JournalPhase.inconclusive;
  steps =
      uncertain_step
      ∷ record {
        sequence = 2;
        kind = github_project;
        resource = "install-1";
        phase = StepPhase.pending;
        reason = none;
      }
      ∷ [];
  next_action = "observe-remote-state";
}

append_uncertain : append_step fresh uncertain_step ≡ returned uncertain
unfolding append_step settle update_at reason_ok is_slug units
append_uncertain = refl

append_step_example : Accepts fresh uncertain_step × Recorded fresh uncertain_step uncertain
append_step_example =
    (append_step_iff fresh uncertain uncertain_step fresh-NumberedFrom).0 append_uncertain

-- Two instants, ten minutes apart.
abbrev pub clock : DateParse
clock t =
    if t == "2026-01-01T00:00:00Z"
    then some 1000000
    else if t == "2026-01-01T00:10:00Z"
    then some 1600000
    else none

abbrev pub seen : Resolution
seen = record {
  operation_id = "op-1";
  deployment_id = "dep-1";
  sequence = 1;
  kind = github_repository;
  resource = "acme/app";
  outcome = matched;
  fingerprint = "0123456789abcdef0123456789abcdef0123456789abcdef0123456789abcdef";
  observed_at = "2026-01-01T00:00:00Z";
}

abbrev pub resumable : Journal
resumable = record fresh {
  phase = JournalPhase.needs_resume;
  resolutions = some (seen ∷ []);
  next_action = "resume-operation";
}

pub resolve_seen :
    resolve_inconclusive clock uncertain seen "2026-01-01T00:10:00Z" ≡ returned resumable
unfolding resolve_inconclusive binds is_fresh record_resolution is_hex_of update_at
resolve_seen = refl

resolve_example :
    Settles clock uncertain seen "2026-01-01T00:10:00Z"
    × (resumable.resolutions ≡ some (past uncertain.resolutions ++ seen ∷ []))
    × (matched ≡ matched
        → (resumable.steps ≡ change_first is_open reopen uncertain.steps)
          × (resumable.phase ≡ JournalPhase.needs_resume))
    × (matched ≢ matched
        → (resumable.steps ≡ uncertain.steps)
          × (resumable.phase ≡ JournalPhase.needs_manual_cleanup))
resolve_example =
    resolve_lem clock uncertain seen "2026-01-01T00:10:00Z" resumable (refl, (refl, tt))
      resolve_seen

Edits-Continues_example : Continues fresh uncertain
Edits-Continues_example =
    Edits-Continues {parse = clock} {r = fresh} {r' = uncertain} fresh-NumberedFrom
      (next here (appended uncertain_step append_uncertain))

abbrev begun : Journal
begun = record fresh { phase = JournalPhase.applying; next_action = "observe-operation" }

edit_example :
    ((r' : Journal)
      → (edit start_journal "op-1" (("op-1", fresh) ∷ [])).0 ≡ returned r'
      → ((r : Journal) × (get "op-1" (("op-1", fresh) ∷ []) ≡ some r)
          × (start_journal r ≡ returned r'))
        × ((j : String)
            → get j (edit start_journal "op-1" (("op-1", fresh) ∷ [])).1
              ≡ (if "op-1" == j then some r' else get j (("op-1", fresh) ∷ []))))
    × ((e : String)
        → (edit start_journal "op-1" (("op-1", fresh) ∷ [])).0 ≡ thrown e
        → (edit start_journal "op-1" (("op-1", fresh) ∷ [])).1 ≡ (("op-1", fresh) ∷ []))
edit_example = edit_iff start_journal "op-1" (("op-1", fresh) ∷ [])
