-- ===== src/SelfUpdate/Versions.antt =====
-- version-compare.ts, check-state.ts, asset-target.ts: is there a newer release, is it time to ask,
-- and which file is for this machine.
use Prim.Native.Nat.{ℕ, ◌+◌, ◌-◌, ◌*◌}
use Prim.Native.Char.{Char, code}
use agx.Prelude.{
  String, Option, none, some, Bool, true, false, ◌&&◌, ◌||◌, List, [], ◌∷◌, nat_eq, string_eq, ◌==◌,
  if◌then◌else◌, ltb, leb,
}
use agx.Prelude.Optional.{◌>>=◌}
use agx.Prelude.Text.{all_in, is_digit}

cons_head : Char → List String → List String
cons_head c [] = String.◌∷◌ c String.[] ∷ []
cons_head c (s ∷ rest) = String.◌∷◌ c s ∷ rest

-- `version.split('.')`
unfoldable pub segments : String → List String
unfolding cons_head
segments String.[] = String.[] ∷ []
segments (String.◌∷◌ c s) =
    let rest = segments s in if code c == b'.' then String.[] ∷ rest else cons_head c rest

decimal : ℕ → String → ℕ
decimal n String.[] = n
decimal n (String.◌∷◌ c s) = decimal (n * 10 + (code c - b'0')) s

-- A segment of digits as its number. The source's numbers are exact up to 2 ^ 53; these are exact.
unfoldable pub parse_segment : String → Option ℕ
unfolding decimal all_in
parse_segment String.[] = none
parse_segment (String.◌∷◌ c s) =
    if all_in is_digit (String.◌∷◌ c s) then some (decimal 0 (String.◌∷◌ c s)) else none

parse_segments : List String → Option (List ℕ)
parse_segments [] = some []
parse_segments (s ∷ rest) = do n ← parse_segment s; ns ← parse_segments rest; some (n ∷ ns)

unfoldable pub parse_numeric_fields : String → Option (List ℕ)
unfolding parse_segments
parse_numeric_fields version = parse_segments (segments version)

-- The loop of `isNewerVersion`: fields that are not there count as zero.
unfoldable pub newer_fields : List ℕ → List ℕ → Bool
newer_fields [] [] = false
newer_fields [] (c ∷ cs) = let rest = newer_fields [] cs in if ltb 0 c then false else rest
newer_fields (r ∷ rs) [] = let rest = newer_fields rs [] in if ltb 0 r then true else rest
newer_fields (r ∷ rs) (c ∷ cs) =
    let rest = newer_fields rs cs in if ltb c r then true else if ltb r c then false else rest

newer_of : Option (List ℕ) → Option (List ℕ) → Bool
newer_of (some remote) (some current) = newer_fields remote current
newer_of _ _ = false

unfoldable pub is_newer_version : String → String → Bool
unfolding newer_of
is_newer_version remote current =
    newer_of (parse_numeric_fields remote) (parse_numeric_fields current)

pub record SelfUpdateState : Type 0 where
  pub last_checked_at_ms : Option ℕ
  pub pending_notice_version : Option String

-- SELF_UPDATE_CHECK_COOLDOWN_MS
abbrev pub check_cooldown : ℕ
check_cooldown = 24 * 60 * 60 * 1000

due_at : Option ℕ → ℕ → ℕ → Bool
due_at none now cooldown = true
due_at (some last) now cooldown = ltb now last || leb cooldown (now - last)

unfoldable pub is_check_due : SelfUpdateState → ℕ → ℕ → Bool
unfolding due_at
is_check_due state now cooldown = due_at state.last_checked_at_ms now cooldown

unfoldable pub resolve_asset_name : String → String → Option String
resolve_asset_name platform arch =
    if platform == "win32" && arch == "x64"
    then some "configs-windows-x64.exe"
    else if platform == "linux" && arch == "x64"
    then some "configs-linux-x64"
    else if platform == "darwin" && arch == "x64"
    then some "configs-darwin-x64"
    else if platform == "darwin" && arch == "arm64"
    then some "configs-darwin-arm64"
    else none
