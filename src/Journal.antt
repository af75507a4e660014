-- ===== src/Journal.antt =====
-- packages/control-plane/src/domain/operation-journal.ts: the journal of one deployment operation,
-- a plan of numbered steps that are settled one after another. The operations are in the modules
-- below.
pub mod Reasons
pub mod Plan
pub mod Append
pub mod Resolve
pub mod Run
pub mod Numbering
pub mod History
pub mod Front
pub mod Tests
use Prim.Native.Char.{code}
use agx.Prelude.{
  ℕ, suc, ◌-◌, ◌*◌, String, Bool, true, false, not, ◌&&◌, ◌||◌, Option, none, some, List, [], ◌∷◌,
  ◌++◌, leb, ltb, nat_eq, string_eq, ◌==◌, if◌then◌else◌, find,
}
use agx.Prelude.Text.{is_blank, units, all_in, is_alnum, is_lower, is_digit, is_hex_of}
use agx.Prelude.Outcome.{Outcome, returned, thrown, ◌>>=◌}
use agx.Time.{DateParse, minute}

pub data StepKind : Type 0 where
  github_repository github_project provider_activation migration_import : StepKind

-- `verified` is no phase of the source's type: only a cast can bring it in, and it is refused.
pub data StepPhase : Type 0 where
  pending succeeded inconclusive needs_manual_cleanup verified : StepPhase

pub data JournalPhase : Type 0 where
  prepared applying observing succeeded degraded failed cancelled inconclusive needs_resume
        needs_manual_cleanup :
      JournalPhase

pub record Step : Type 0 where
  pub sequence : ℕ
  pub kind : StepKind
  pub resource : String
  pub phase : StepPhase
  pub reason : Option String

pub data ResolutionOutcome : Type 0 where
  matched absent drifted : ResolutionOutcome

pub record Resolution : Type 0 where
  pub operation_id : String
  pub deployment_id : String
  pub sequence : ℕ
  pub kind : StepKind
  pub resource : String
  pub outcome : ResolutionOutcome
  pub fingerprint : String
  pub observed_at : String

pub data Retention : Type 0 where
  retain : Retention

-- `reason` is the field that `finishOperationJournal` adds.
pub record Journal : Type 0 where
  pub operation_id : String
  pub deployment_id : String
  pub revision_id : Option String
  pub phase : JournalPhase
  pub steps : List Step
  pub resolutions : Option (List Resolution)
  pub remote_retention : Retention
  pub next_action : String
  pub reason : Option String

pub record PlanStep : Type 0 where
  pub kind : StepKind
  pub resource : String

pub record PlanInput : Type 0 where
  pub operation_id : String
  pub deployment_id : String
  pub revision_id : String
  pub steps : List PlanStep

abbrev pub is_pending : Step → Bool
is_pending s = elim s.phase [ StepPhase.pending ↦ true | _ ↦ false ]

abbrev pub is_open : Step → Bool
is_open s = elim s.phase [ StepPhase.pending ↦ true | StepPhase.inconclusive ↦ true | _ ↦ false ]

abbrev pub kind_tag : StepKind → ℕ
kind_tag github_repository = 0
kind_tag github_project = 1
kind_tag provider_activation = 2
kind_tag migration_import = 3

-- `steps.map((value) => value.sequence === n ? f(value) : value)`
unfoldable pub update_at : ℕ → (Step → Step) → List Step → List Step
update_at n f [] = []
update_at n f (s ∷ steps) = (if s.sequence == n then f s else s) ∷ update_at n f steps
