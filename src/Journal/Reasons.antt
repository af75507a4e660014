-- ===== src/Journal/Reasons.antt =====
-- operation-journal.ts: the reasons that a step or an operation may carry.
use Prim.Native.Char.{code}
use agx.Prelude.{
  ℕ, String, Bool, true, false, ◌&&◌, ◌||◌, Option, none, some, leb, nat_eq, string_eq, ◌==◌,
}
use agx.Prelude.Text.{units, is_lower, is_digit}

abbrev pub max_step_reason_length : ℕ
max_step_reason_length = 128

-- STEP_REASON; the flag says that the last character was no dash and not the beginning.
slug_from : Bool → String → Bool
slug_from closed String.[] = closed
slug_from closed (String.◌∷◌ c s) =
    let word = is_lower (code c) || is_digit (code c) in
    (word || (closed && code c == b'-')) && slug_from word s

unfoldable pub is_slug : String → Bool
unfolding slug_from
is_slug s = slug_from false s

-- `reason !== undefined && (reason.length > … || !STEP_REASON.test(reason))`, negated
unfoldable pub reason_ok : Option String → Bool
reason_ok none = true
reason_ok (some r) = leb (units r) max_step_reason_length && is_slug r
