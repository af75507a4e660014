-- ===== src/SelfUpdate/Sums.antt =====
-- checksum.ts, parseSha256Sums, and the tag of a release in github-release-updater.ts.
use Prim.Native.Nat.{ℕ, zero, suc, ◌-◌}
use Prim.Native.Char.{Char, code}
use Prim.Native.String.{char_at}
use agx.Prelude.{
  String, Option, none, some, Bool, not, ◌&&◌, ◌||◌, List, [], ◌∷◌, nat_eq, string_eq, ◌==◌,
  if◌then◌else◌, leb, length,
}
use agx.Prelude.Optional.{◌>>=◌}
use agx.Prelude.Dict.{Dict, put}
use agx.Prelude.Text.{trim_end, all_in, is_hex}
use agx.SelfUpdate.Versions.{segments, parse_numeric_fields}

cons_line : Char → List String → List String
cons_line c [] = String.◌∷◌ c String.[] ∷ []
cons_line c (s ∷ rest) = String.◌∷◌ c s ∷ rest

-- The lines of a text, split at line feeds. The source splits at a carriage return before a line feed
-- too; what that leaves at the end of a line is removed by `trimEnd`.
unfoldable pub lines : String → List String
unfolding cons_line
lines String.[] = String.[] ∷ []
lines (String.◌∷◌ c s) =
    let rest = lines s in if code c == 10 then String.[] ∷ rest else cons_line c rest

abbrev is_upper_hex : ℕ → Bool
is_upper_hex c = leb b'A' c && leb c b'F'

abbrev lower_hex : Char → Char
lower_hex c = if is_upper_hex (code c) then char_at "abcdef" (code c - b'A') else c

-- the first digits of a line, in lower case, and the rest of it
take_hash : ℕ → String → Option (String × String)
take_hash zero s = some (String.[], s)
take_hash (suc n) String.[] = none
take_hash (suc n) (String.◌∷◌ c s) =
    if is_hex (code c) || is_upper_hex (code c)
    then (do rest ← take_hash n s; some (String.◌∷◌ (lower_hex c) rest.0, rest.1))
    else none

-- what `.` matches
abbrev is_inline : ℕ → Bool
is_inline c = not (c == 10 || c == 13 || c == 0x2028 || c == 0x2029)

name_of : String → Option String
name_of String.[] = none
name_of s = if all_in is_inline s then some s else none

file_name : String → Option String
file_name (String.◌∷◌ c (String.◌∷◌ d s)) =
    if code c == b' ' && (code d == b' ' || code d == b'*') then name_of s else none
file_name _ = none

-- SHA256_LINE_PATTERN: the name of the file and its hash
unfoldable pub parse_line : String → Option (String × String)
unfolding take_hash name_of file_name
parse_line line = do hash ← take_hash 64 line; name ← file_name hash.1; some (name, hash.0)

add_line : Option (String × String) → Dict String → Dict String
add_line none m = m
add_line (some (name, hash)) m = put name hash m

parse_lines : List String → Dict String → Dict String
parse_lines [] m = m
parse_lines (line ∷ rest) m = parse_lines rest (add_line (parse_line (trim_end line)) m)

unfoldable pub parse_sha256_sums : String → Dict String
unfolding parse_lines add_line
parse_sha256_sums text = parse_lines (lines text) []

strip_prefix : String → String → Option String
strip_prefix String.[] s = some s
strip_prefix (String.◌∷◌ c p) String.[] = none
strip_prefix (String.◌∷◌ c p) (String.◌∷◌ d s) = if code c == code d then strip_prefix p s else none

version_of : List String → Option (List ℕ) → String → Option String
version_of parts none version = none
version_of parts (some fields) version =
    if length parts == 3 || length parts == 4 then some version else none

-- The prefix and three or four numbers.
unfoldable pub parse_version_from_tag : String → Option String
unfolding strip_prefix version_of
parse_version_from_tag tag = do
  version ← strip_prefix "configs-v" tag
  version_of (segments version) (parse_numeric_fields version) version
