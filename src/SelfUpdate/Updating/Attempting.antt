-- ===== src/SelfUpdate/Updating/Attempting.antt =====
-- github-release-updater.ts, checkAndApply: what an attempt to update may come to.
use agx.Prelude.{
  String, ◌≡◌, sym, ap, ◌∙◌, Option, none, some, true, string_eq, ◌==◌, eq_iff, find, arith, ◌∷◌,
  [], Option-cases, inl, inr,
}
use agx.Prelude.Text.{texts}
use agx.Prelude.Dict.{get}
use agx.Prelude.Outcome.{Outcome, returned}
use agx.SelfUpdate.Versions.{is_newer_version, resolve_asset_name}
use agx.SelfUpdate.Sums.{parse_sha256_sums, parse_version_from_tag}
use agx.SelfUpdate.Replacing.{Disk, FilePorts, backup_path}
use agx.SelfUpdate.Updating.{Asset, Release, Url, Net, canonical, is_canonical_asset_url}

module _ {B W : Type 0} (files : FilePorts B W) (net : Net B W) (current : String) where
  abbrev pub backup : String
  backup = backup_path net.exec_path current

  -- The address is the file of that name in the repository's release of that tag, over https, at the
  -- usual port, with no credentials and nothing after the path.
  pub record Canonical (address tag name : String) : Type 0 where
    pub url : Url
    pub parsed : net.parse_url address ≡ some url
    pub is_https : url.protocol ≡ "https:"
    pub at_host : url.hostname ≡ "github.com"
    pub usual_port : url.port ≡ ""
    pub no_username : url.username ≡ ""
    pub no_password : url.password ≡ ""
    pub no_search : url.search ≡ ""
    pub no_hash : url.hash ≡ ""
    pub at_path :
        url.pathname ≡ texts ("/2233admin/agent-systemX/releases/download/" ∷ tag ∷ "/" ∷ name ∷ [])

  -- The release that is fetched has the version, the machine's file and a list of sums, both at
  -- their own addresses.
  pub record Published (s : Disk B W) (version name : String) : Type 0 where
    pub release : Release
    pub asset : Asset
    pub sums : Asset
    pub after : Disk B W
    pub fetched : net.fetch_release s ≡ (returned (some release), after)
    pub has_version : parse_version_from_tag release.tag_name ≡ some version
    pub named : resolve_asset_name net.platform net.arch ≡ some name
    pub has_asset : find (λ (a : Asset). a.name == name) release.assets ≡ some asset
    pub has_sums : find (λ (a : Asset). a.name == "SHA256SUMS.txt") release.assets ≡ some sums
    pub asset_address : Canonical asset.browser_download_url release.tag_name name
    pub sums_address : Canonical sums.browser_download_url release.tag_name "SHA256SUMS.txt"

  -- How an attempt ends that begins in the state s. It installs a newer version: the bytes downloaded
  -- from the release's file, with the hash that the release's downloaded sums have for that file; or
  -- the program stays; or it is left as the backup alone.
  pub data Attempt (old : B) (s : Disk B W) : Outcome (Option String) × Disk B W → Type 0 where
    installed :
        {version : String} {t : Disk B W} (name text : String) (bytes : B) (s₂ s₃ : Disk B W)
        (p : Published s version name)
        → is_newer_version version current ≡ true
        → net.download_text p.sums.browser_download_url p.after ≡ (returned text, s₂)
        → net.download_bytes p.asset.browser_download_url s₂ ≡ (returned bytes, s₃)
        → get name (parse_sha256_sums text) ≡ some (net.sha256_hex bytes)
        → t.files net.exec_path ≡ some bytes
        → t.files backup ≡ some old
        → Attempt old s (returned (some version), t)
    unchanged : {t : Disk B W} → t.files net.exec_path ≡ some old → Attempt old s (returned none, t)
    left_as_backup :
        {t : Disk B W}
        → t.files net.exec_path ≡ none
        → t.files backup ≡ some old
        → Attempt old s (returned none, t)

  pub asset_url-Canonical :
      (address tag name : String)
      → is_canonical_asset_url files net current address tag name ≡ true
      → Canonical address tag name
  unfolding is_canonical_asset_url
  asset_url-Canonical address tag name e = elim (Option-cases (net.parse_url address)) [
    | inl refused ↦ absurd (ground arith)
    | inr (url, parsed) ↦
        let path = texts ("/2233admin/agent-systemX/releases/download/" ∷ tag ∷ "/" ∷ name ∷ []) in
        let tests : canonical (some url) tag name ≡ true =
          ap (λ u. canonical u tag name) (sym parsed) ∙ e in
        record {
          url = url;
          parsed = parsed;
          is_https = ground (arith, eq_iff url.protocol "https:");
          at_host = ground (arith, eq_iff url.hostname "github.com");
          usual_port = ground (arith, eq_iff url.port "");
          no_username = ground (arith, eq_iff url.username "");
          no_password = ground (arith, eq_iff url.password "");
          no_search = ground (arith, eq_iff url.search "");
          no_hash = ground (arith, eq_iff url.hash "");
          at_path = ground (arith, eq_iff url.pathname path);
        }
  ]
