-- ===== src/SelfUpdate/Updating.antt =====
-- github-release-updater.ts, checkAndApply: one attempt to update, which never throws.
pub mod Attempting
pub mod Deciding
use agx.Prelude.{
  String, Option, none, some, Bool, true, false, not, ◌&&◌, List, [], ◌∷◌, StrictEq, string_eq,
  ◌==◌, if◌then◌else◌, find,
}
use agx.Prelude.Text.{texts}
use agx.Prelude.Dict.{get}
use agx.Prelude.Outcome.{Outcome, returned, thrown}
use agx.Prelude.Exec.{Exec, pure, ◌>>=◌}
use agx.SelfUpdate.Versions.{is_newer_version, resolve_asset_name}
use agx.SelfUpdate.Sums.{parse_sha256_sums, parse_version_from_tag}
use agx.SelfUpdate.Replacing.{Disk, FilePorts, on_error, replace_binary}

pub record Asset : Type 0 where
  pub name : String
  pub browser_download_url : String

pub record Release : Type 0 where
  pub tag_name : String
  pub assets : List Asset

-- `new URL(text)`, as far as the code looks at it
pub record Url : Type 0 where
  pub protocol : String
  pub hostname : String
  pub port : String
  pub username : String
  pub password : String
  pub search : String
  pub hash : String
  pub pathname : String

-- The network, the hash and the machine. `fetch_release` gives the release if the answer is one;
-- `parse_url` gives `none` where `new URL` throws. Each network call ends, by its time limit.
pub record Net (B W : Type 0) : Type 0 where
  pub fetch_release : Exec (Disk B W) (Option Release)
  pub download_text : String → Exec (Disk B W) String
  pub download_bytes : String → Exec (Disk B W) B
  pub sha256_hex : B → String
  pub parse_url : String → Option Url
  pub platform : String
  pub arch : String
  pub exec_path : String

abbrev sums_asset_name : String
sums_asset_name = "SHA256SUMS.txt"

find_asset : List Asset → String → Option Asset
find_asset assets name = find (λ (a : Asset). a.name == name) assets

canonical : Option Url → String → String → Bool
canonical none tag name = false
canonical (some u) tag name =
    u.protocol == "https:"
    && u.hostname == "github.com"
    && u.port == ""
    && u.username == ""
    && u.password == ""
    && u.search == ""
    && u.hash == ""
    && u.pathname == texts ("/2233admin/agent-systemX/releases/download/" ∷ tag ∷ "/" ∷ name ∷ [])

module _ {B W : Type 0} (files : FilePorts B W) (net : Net B W) (current : String) where
  unfoldable pub is_canonical_asset_url : String → String → String → Bool
  unfolding canonical
  is_canonical_asset_url url tag name = canonical (net.parse_url url) tag name

  with_hash : Option String → String → Asset → Exec (Disk B W) (Option String)
  with_hash none version asset = pure none
  with_hash (some expected) version asset = do
    bytes ← net.download_bytes asset.browser_download_url
    (if not (net.sha256_hex bytes == expected)
        then pure none
        else (do done ← replace_binary files net.exec_path current bytes; pure (some version)))

  with_assets :
      Option Asset → Option Asset → String → String → Release → Exec (Disk B W) (Option String)
  with_assets (some asset) (some sums) name version release =
      if not (
        is_canonical_asset_url asset.browser_download_url release.tag_name name
        && is_canonical_asset_url sums.browser_download_url release.tag_name sums_asset_name)
      then pure none
      else (do
        text ← net.download_text sums.browser_download_url
        with_hash (get name (parse_sha256_sums text)) version asset)
  with_assets _ _ name version release = pure none

  with_name : Option String → String → Release → Exec (Disk B W) (Option String)
  unfolding find_asset
  with_name none version release = pure none
  with_name (some name) version release =
      with_assets (find_asset release.assets name) (find_asset release.assets sums_asset_name) name
        version release

  with_version : Option String → Release → Exec (Disk B W) (Option String)
  with_version none release = pure none
  with_version (some version) release =
      if not (is_newer_version version current)
      then pure none
      else with_name (resolve_asset_name net.platform net.arch) version release

  with_release : Option Release → Exec (Disk B W) (Option String)
  with_release none = pure none
  with_release (some release) = with_version (parse_version_from_tag release.tag_name) release

  check : Exec (Disk B W) (Option String)
  unfolding with_hash with_assets with_name with_version with_release
  check =
      if current == "dev" then pure none else (do release ← net.fetch_release; with_release release)

  unfoldable pub check_and_apply : Exec (Disk B W) (Option String)
  unfolding check
  check_and_apply = on_error check (λ e. pure none)
