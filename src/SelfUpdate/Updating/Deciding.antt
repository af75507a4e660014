-- ===== src/SelfUpdate/Updating/Deciding.antt =====
-- github-release-updater.ts, checkAndApply: only a newer program with the published hash is installed.
use agx.Prelude.{String, ◌≡◌, Option, none, string_eq}
use agx.Prelude.Outcome.{Outcome, returned, thrown}
use agx.Prelude.Exec.{Exec}
use agx.SelfUpdate.Replacing.{Disk, FilePorts}
use agx.SelfUpdate.Updating.{Net}
use agx.SelfUpdate.Updating.Attempting.{Attempt}

abbrev pub QuietFiles : {B W A : Type 0} → Exec (Disk B W) A → Type 0
QuietFiles {B} {W} m = (s : Disk B W) (p : String) → (m s).1.files p ≡ s.files p

module _ {B W : Type 0} (files : FilePorts B W) (net : Net B W) (current : String) where
  -- The same before the handler: a failure is a thrown error.
  abbrev caught : Outcome (Option String) × Disk B W → Outcome (Option String) × Disk B W
  caught (returned r, t) = (returned r, t)
  caught (thrown e, t) = (returned none, t)

  abbrev AttemptOf : B → Disk B W → Outcome (Option String) × Disk B W → Type 0
  AttemptOf old s x = Attempt files net current old s (caught x)
