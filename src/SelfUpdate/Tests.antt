-- ===== src/SelfUpdate/Tests.antt =====
-- An update of one file on a disk where every call succeeds.
use agx.Prelude.{
  String, ◌≡◌, refl, none, some, Option, true, false, [], ◌∷◌, string_eq, ◌==◌, if◌then◌else◌,
}
use agx.Prelude.Dict.{get, put}
use agx.Prelude.Text.{texts, trim_end}
use agx.Prelude.Outcome.{returned}
use agx.SelfUpdate.Versions.{
  is_newer_version, parse_numeric_fields, segments, parse_segment, newer_fields, resolve_asset_name,
}
use agx.SelfUpdate.Ordering.{is_newer_version_lem}
use agx.SelfUpdate.Sums.{parse_sha256_sums, parse_version_from_tag, lines, parse_line}
use agx.SelfUpdate.Replacing.{write_to_same_dir_temp_file, swap, Disk, FilePorts, replace_binary}
use agx.SelfUpdate.Updating.{is_canonical_asset_url, Net, Url, check_and_apply}

newer : is_newer_version "1.10.0" "1.2" ≡ true
unfolding is_newer_version parse_numeric_fields segments parse_segment newer_fields
newer = refl

is_newer_version_example :
    (is_newer_version "1.2" "1.10.0" ≡ false)
    × (is_newer_version "1.2" "1.0" ≡ true → is_newer_version "1.10.0" "1.0" ≡ true)
is_newer_version_example = is_newer_version_lem "1.10.0" "1.2" "1.0" newer

abbrev set_file : String → Option String → Disk String Unit → Disk String Unit
set_file path content s = record s { files = λ p. if p == path then content else s.files p }

abbrev ports : FilePorts String Unit
ports = record {
  write_file = λ path bytes s. (returned tt, set_file path (some bytes) s);
  rename = λ from to s. (returned tt, set_file to (s.files from) (set_file from none s));
  unlink = λ path s. (returned tt, set_file path none s);
}

abbrev disk : Disk String Unit
disk = record { files = λ p. if p == "/bin/configs" then some "old" else none; world = tt }

abbrev digest : String
digest = "0123456789abcdef0123456789abcdef0123456789abcdef0123456789abcdef"

abbrev url_of : String → String
url_of name =
    texts
      ("https://github.com/2233admin/agent-systemX/releases/download/configs-v1.10.0/" ∷ name ∷ [])

abbrev path_of : String → Url
path_of name = record {
  protocol = "https:";
  hostname = "github.com";
  port = "";
  username = "";
  password = "";
  search = "";
  hash = "";
  pathname = texts ("/2233admin/agent-systemX/releases/download/configs-v1.10.0/" ∷ name ∷ []);
}

abbrev net : Net String Unit
net = record {
  fetch_release = λ s. (
    returned (
        some (record {
          tag_name = "configs-v1.10.0";
          assets =
              record {
                name = "configs-linux-x64";
                browser_download_url = url_of "configs-linux-x64";
              }
              ∷ record { name = "SHA256SUMS.txt"; browser_download_url = url_of "SHA256SUMS.txt" }
              ∷ [];
        })),
    s,
  );
  download_text = λ url s. (returned (texts (digest ∷ " *configs-linux-x64" ∷ [])), s);
  download_bytes = λ url s. (returned "new", s);
  sha256_hex = λ b. digest;
  parse_url = λ url.
      some (
        path_of (if url == url_of "SHA256SUMS.txt" then "SHA256SUMS.txt" else "configs-linux-x64"));
  platform = "linux";
  arch = "x64";
  exec_path = "/bin/configs";
}

installs : (check_and_apply ports net "1.2" disk).0 ≡ returned (some "1.10.0")
unfolding check_and_apply is_newer_version parse_numeric_fields segments parse_segment newer_fields
    resolve_asset_name parse_version_from_tag parse_sha256_sums lines parse_line get replace_binary
    is_canonical_asset_url trim_end put write_to_same_dir_temp_file swap
installs = refl
