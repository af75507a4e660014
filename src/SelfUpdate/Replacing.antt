-- ===== src/SelfUpdate/Replacing.antt =====
-- github-release-updater.ts, replaceBinary, with atomic-write.ts: the new program is written beside
-- the old one, and takes its place by renames.
use agx.Prelude.{String, Option, [], ◌∷◌}
use agx.Prelude.Text.{texts}
use agx.Prelude.Outcome.{Outcome, returned, thrown}
use agx.Prelude.Exec.{Exec, pure, throw, ◌>>=◌}

-- The files by their paths, with contents of type `B`, and the rest of the world.
pub record Disk (B W : Type 0) : Type 0 where
  pub files : String → Option B
  pub world : W

-- `writeFile`, `rename` and `unlink` of node:fs/promises
pub record FilePorts (B W : Type 0) : Type 0 where
  pub write_file : String → B → Exec (Disk B W) Unit
  pub rename : String → String → Exec (Disk B W) Unit
  pub unlink : String → Exec (Disk B W) Unit

abbrev on_outcome : {S A : Type 0} → Outcome A × S → (String → Exec S A) → Outcome A × S
on_outcome (returned a, s) h = (returned a, s)
on_outcome (thrown e, s) h = h e s

-- `try { m } catch (error) { h(error) }`
abbrev pub on_error : {S A : Type 0} → Exec S A → (String → Exec S A) → Exec S A
on_error m h s = on_outcome (m s) h

-- `try { m } finally { try { n } catch {} }`
abbrev pub finally_try : {S A : Type 0} → Exec S A → Exec S Unit → Exec S A
finally_try m n s = let (r, t) = m s in (r, (n t).1)

abbrev pub temp_path : String → String
temp_path exec_path = texts (exec_path ∷ ".download" ∷ [])

abbrev pub backup_path : String → String → String
backup_path exec_path version = texts (exec_path ∷ "." ∷ version ∷ ".bak" ∷ [])

module _ {B W : Type 0} (ports : FilePorts B W) where
  -- `writeToSameDirTempFile(path, bytes, { mode, tempSuffix: '.download' })`
  unfoldable pub write_to_same_dir_temp_file : String → B → Exec (Disk B W) String
  write_to_same_dir_temp_file path bytes = do
    written ← ports.write_file (temp_path path) bytes
    pure (temp_path path)

  unfoldable pub swap : String → String → String → Exec (Disk B W) Unit
  swap exec_path temp backup = do
    moved ← ports.rename exec_path backup
    on_error (ports.rename temp exec_path)
        (λ error. do restored ← ports.rename backup exec_path; throw error)

  unfoldable pub replace_binary : String → String → B → Exec (Disk B W) Unit
  replace_binary exec_path version bytes = do
    temp ← write_to_same_dir_temp_file exec_path bytes
    finally_try (swap exec_path temp (backup_path exec_path version)) (ports.unlink temp)
