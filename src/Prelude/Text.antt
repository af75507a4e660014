-- ===== src/Prelude/Text.antt =====
-- Texts as the source's strings: `trim`, UTF-16 lengths and the regular expressions' classes.
-- A text is a sequence of code points, so a string with a lone surrogate has no counterpart.
use Prim.Native.Nat.{ℕ, zero, suc, ◌+◌, ◌-◌, ◌/◌, ◌%◌}
use Prim.Native.Char.{Char, code}
use Prim.Native.String.{String, ◌++◌}
use mathlib.Core.List.{List, [], ◌∷◌}
use mathlib.Core.Bool.{Bool, true, false, ◌&&◌, ◌||◌}
use agx.Prelude.Tests.{ltb, leb, nat_eq, string_eq, ◌==◌, if◌then◌else◌}

-- ECMAScript's white space and line terminators.
abbrev pub is_space : ℕ → Bool
is_space c =
    (leb 9 c && leb c 13)
    || c == 32
    || c == 160
    || c == 0x1680
    || (leb 0x2000 c && leb c 0x200a)
    || c == 0x2028
    || c == 0x2029
    || c == 0x202f
    || c == 0x205f
    || c == 0x3000
    || c == 0xfeff

unfoldable pub trim_start : String → String
trim_start String.[] = String.[]
trim_start (String.◌∷◌ c s) =
    let rest = trim_start s in if is_space (code c) then rest else String.◌∷◌ c s

abbrev pub cons_unless_blank : Bool → Char → String → String
cons_unless_blank space c String.[] = if space then String.[] else String.◌∷◌ c String.[]
cons_unless_blank space c s = String.◌∷◌ c s

unfoldable pub trim_end : String → String
trim_end String.[] = String.[]
trim_end (String.◌∷◌ c s) = cons_unless_blank (is_space (code c)) c (trim_end s)

-- `s.trim()`
unfoldable pub trim : String → String
unfolding trim_start trim_end
trim s = trim_end (trim_start s)

-- `s.trim() === ''`
unfoldable pub is_blank : String → Bool
unfolding trim
is_blank s = trim s == ""

-- `s.length`, in UTF-16 code units
unfoldable pub units : String → ℕ
units String.[] = 0
units (String.◌∷◌ c s) = (if ltb (code c) 0x10000 then 1 else 2) + units s

-- `/^[p]*$/`
unfoldable pub all_in : (ℕ → Bool) → String → Bool
all_in p String.[] = true
all_in p (String.◌∷◌ c s) = p (code c) && all_in p s

abbrev pub is_digit : ℕ → Bool
is_digit c = leb b'0' c && leb c b'9'

abbrev pub is_lower : ℕ → Bool
is_lower c = leb b'a' c && leb c b'z'

abbrev pub is_upper : ℕ → Bool
is_upper c = leb b'A' c && leb c b'Z'

abbrev pub is_alnum : ℕ → Bool
is_alnum c = is_lower c || is_upper c || is_digit c

-- `[a-f0-9]`
abbrev pub is_hex : ℕ → Bool
is_hex c = is_digit c || (leb b'a' c && leb c b'f')

-- `/^[a-f0-9]{n}$/`
unfoldable pub is_hex_of : ℕ → String → Bool
unfolding units all_in
is_hex_of n s = units s == n && all_in is_hex s

-- a template of texts and values, joined
abbrev pub texts : List String → String
texts [] = String.[]
texts (s ∷ rest) = s ++ texts rest

-- `s.charCodeAt(0)`, …, `s.charCodeAt(s.length - 1)`: one or two UTF-16 units for each character
unfoldable pub code_units : String → List ℕ
code_units String.[] = []
code_units (String.◌∷◌ c s) =
    let rest = code_units s in
    let above = code c - 0x10000 in
    if ltb (code c) 0x10000
    then code c ∷ rest
    else (0xd800 + above / 0x400) ∷ (0xdc00 + above % 0x400) ∷ rest

unfoldable pub lex_before : List ℕ → List ℕ → Bool
lex_before xs [] = false
lex_before [] (y ∷ ys) = true
lex_before (x ∷ xs) (y ∷ ys) = let rest = lex_before xs ys in if x == y then rest else ltb x y

-- `a < b` of two texts, by their code points. Between texts with no characters beyond U+FFFF this
-- is also the order of their UTF-16 units.
unfoldable pub code_points : String → List ℕ
code_points String.[] = []
code_points (String.◌∷◌ c s) = code c ∷ code_points s

unfoldable pub text_before : String → String → Bool
text_before a b = lex_before (code_points a) (code_points b)

-- `parts.join(separator)`
unfoldable pub join : String → List String → String
join separator [] = String.[]
join separator (s ∷ []) = s
join separator (s ∷ t ∷ rest) = texts (s ∷ separator ∷ join separator (t ∷ rest) ∷ [])

-- `[a-f0-9]` with the flag `i`
abbrev pub is_hex_any : ℕ → Bool
is_hex_any c = is_hex c || (leb b'A' c && leb c b'F')

-- `/^…$/` of a sequence of classes of characters
unfoldable pub matches_each : List (ℕ → Bool) → String → Bool
matches_each [] String.[] = true
matches_each (p ∷ ps) (String.◌∷◌ c s) = p (code c) && matches_each ps s
matches_each _ _ = false

-- `c{n}`
unfoldable pub times : ℕ → (ℕ → Bool) → List (ℕ → Bool)
times zero p = []
times (suc n) p = p ∷ times n p

-- the characters of a text, one by one
unfoldable pub literally : String → List (ℕ → Bool)
literally String.[] = []
literally (String.◌∷◌ c s) = (λ d. d == code c) ∷ literally s
