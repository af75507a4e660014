-- ===== src/Activation/Hash.antt =====
-- activation.ts, computePlanHash: a 32-bit hash of the plan's text, in hexadecimal.
use Prim.Native.String.{String, char_at}
use agx.Prelude.{ℕ, zero, suc, ◌+◌, ◌*◌, ◌/◌, ◌%◌, ◌^◌, List, [], ◌∷◌, nat_eq, ◌==◌, if◌then◌else◌}
use agx.Prelude.Text.{code_units, texts}
use agx.Client.{ClientId, client_text}

-- The loop of `computePlanHash`. The source's signed 32-bit `hash` is held as its residue modulo
-- 2 ^ 32, which is what `hash >>> 0` reads in the end.
unfoldable pub hash_units : ℕ → List ℕ → ℕ
hash_units hash [] = hash
hash_units hash (unit ∷ rest) = hash_units ((31 * hash + unit) % 2 ^ 32) rest

-- the digits of `n.toString(16)` before those of `end`, at most as many as the fuel
hex_digits : ℕ → ℕ → String → String
hex_digits zero n end = end
hex_digits (suc fuel) n end =
    let end' = String.◌∷◌ (char_at "0123456789abcdef" (n % 16)) end in
    let longer = hex_digits fuel (n / 16) end' in if n / 16 == 0 then end' else longer

-- A 32-bit number has at most eight digits.
unfoldable pub to_hex : ℕ → String
unfolding hex_digits
to_hex n = hex_digits 8 n ""

unfoldable pub compute_plan_hash : String → ClientId → String → String
compute_plan_hash revision_id client prepared_at =
    let input = texts (revision_id ∷ " " ∷ client_text client ∷ " " ∷ prepared_at ∷ []) in
    texts ("ph_" ∷ to_hex (hash_units 0 (code_units input)) ∷ [])
