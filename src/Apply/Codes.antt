-- ===== src/Apply/Codes.antt =====
-- deployment-apply.ts, code: a reason as a slug of at most 128 characters.
use Prim.Native.Nat.{ℕ, zero, suc, ◌-◌}
use Prim.Native.Char.{Char, code}
use Prim.Native.String.{String, char_at}
use agx.Prelude.{Bool, false, not, ◌||◌, nat_eq, string_eq, ◌==◌, if◌then◌else◌}
use agx.Prelude.Text.{is_upper, is_lower, is_digit}

abbrev is_word : ℕ → Bool
is_word c = is_lower c || is_digit c

-- `toLowerCase`, up to the characters that stay outside `[a-z0-9]`: besides the capitals only the
-- Kelvin sign and the capital i with a dot (which becomes `i` and a combining dot) lead into it.
lower_case : String → String
lower_case String.[] = String.[]
lower_case (String.◌∷◌ c s) =
    let rest = lower_case s in
    if is_upper (code c)
    then String.◌∷◌ (char_at "abcdefghijklmnopqrstuvwxyz" (code c - b'A')) rest
    else if code c == 0x212a
    then String.◌∷◌ "k" rest
    else if code c == 0x130
    then String.◌∷◌ "i" (String.◌∷◌ c rest)
    else String.◌∷◌ c rest

-- `replace(/[^a-z0-9]+/g, '-')`; the flag says that the run's dash is already written.
dash_runs : Bool → String → String
dash_runs run String.[] = String.[]
dash_runs run (String.◌∷◌ c s) =
    let rest = dash_runs (not (is_word (code c))) s in
    if is_word (code c) then String.◌∷◌ c rest else if run then rest else String.◌∷◌ "-" rest

drop_dashes : String → String
drop_dashes String.[] = String.[]
drop_dashes (String.◌∷◌ c s) =
    let rest = drop_dashes s in if code c == b'-' then rest else String.◌∷◌ c s

cons_unless_end : Bool → Char → String → String
cons_unless_end dash c String.[] = if dash then String.[] else String.◌∷◌ c String.[]
cons_unless_end dash c s = String.◌∷◌ c s

drop_dashes_end : String → String
drop_dashes_end String.[] = String.[]
drop_dashes_end (String.◌∷◌ c s) = cons_unless_end (code c == b'-') c (drop_dashes_end s)

take_chars : ℕ → String → String
take_chars zero s = String.[]
take_chars (suc n) String.[] = String.[]
take_chars (suc n) (String.◌∷◌ c s) = String.◌∷◌ c (take_chars n s)

unfoldable pub reason_code : String → String
unfolding lower_case dash_runs drop_dashes cons_unless_end drop_dashes_end take_chars
reason_code value =
    let safe =
      take_chars 128 (drop_dashes_end (drop_dashes (dash_runs false (lower_case value)))) in
    if safe == "" then "external-operation-failed" else safe
