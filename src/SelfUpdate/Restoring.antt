-- ===== src/SelfUpdate/Restoring.antt =====
-- github-release-updater.ts, replaceBinary: the old program is not lost, whatever fails.
use agx.Prelude.{String, ◌≡◌, ◌≢◌, none, some, ◌⊎◌}
use agx.Prelude.Outcome.{Outcome, returned, thrown}
use agx.SelfUpdate.Replacing.{Disk, FilePorts}

-- The three paths of a replacement are three.
pub record Apart (exec_path temp backup : String) : Type 0 where
  pub exec_temp : exec_path ≢ temp
  pub exec_backup : exec_path ≢ backup
  pub backup_temp : backup ≢ temp

module _ {B W : Type 0} where
  -- The file `from` is now `to`, and every other file is as it was.
  pub record Renamed (from to : String) (s t : Disk B W) : Type 0 where
    pub moved : t.files to ≡ s.files from
    pub gone : t.files from ≡ none
    pub others : (p : String) → p ≢ from → p ≢ to → t.files p ≡ s.files p

  abbrev pub OthersKept : String → Disk B W → Disk B W → Type 0
  OthersKept path s t = (p : String) → p ≢ path → t.files p ≡ s.files p

  -- What the calls of the file system promise: a rename of one path to another happens or changes nothing, a
  -- write or a removal touches its own path only, and a write that returns has written its bytes.
  pub record FileLaws (ports : FilePorts B W) : Type 0 where
    pub renames :
        (from to : String) (s : Disk B W)
        → from ≢ to
        → ((t : Disk B W) × (ports.rename from to s ≡ (returned tt, t)) × Renamed from to s t)
          ⊎ ((e : String) × (t : Disk B W) × (ports.rename from to s ≡ (thrown e, t))
              × ((p : String) → t.files p ≡ s.files p))
    pub writes :
        (path : String) (bytes : B) (s : Disk B W)
        → ((t : Disk B W) × (ports.write_file path bytes s ≡ (returned tt, t))
            × (t.files path ≡ some bytes)
            × OthersKept path s t)
          ⊎ ((e : String) × (t : Disk B W) × (ports.write_file path bytes s ≡ (thrown e, t))
              × OthersKept path s t)
    pub unlinks : (path : String) (s : Disk B W) → OthersKept path s (ports.unlink path s).1

  -- How a replacement ends: done, with the old program as the backup; or failed, with the old program
  -- in its place; or failed with it as the backup, when moving it back failed too.
  pub data Ends (exec_path backup : String) (old bytes : B)
      : Outcome {0} Unit × Disk B W → Type 0 where
    replaced :
        {t : Disk B W}
        → t.files exec_path ≡ some bytes
        → t.files backup ≡ some old
        → Ends exec_path backup old bytes (returned tt, t)
    kept :
        {e : String} {t : Disk B W}
        → t.files exec_path ≡ some old
        → Ends exec_path backup old bytes (thrown e, t)
    stranded :
        {e : String} {t : Disk B W}
        → t.files exec_path ≡ none
        → t.files backup ≡ some old
        → Ends exec_path backup old bytes (thrown e, t)
