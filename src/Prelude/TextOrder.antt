-- ===== src/Prelude/TextOrder.antt =====
-- The order of texts is a linear preorder: neither text before the other means the same code points.
use Prim.Native.Nat.{ℕ}
use Prim.Native.String.{String}
use mathlib.Core.Path.{◌≡◌, refl}
use mathlib.Core.Bool.{true, false}
use mathlib.Core.List.{List, [], ◌∷◌}
use native.Mathlib.Omega.{arith}
use agx.Prelude.Tests.{nat_eq}
use agx.Prelude.Text.{lex_before, text_before, code_points}

pub lex_before_trans :
    (a b c : List ℕ) → lex_before a b ≡ false → lex_before b c ≡ false → lex_before a c ≡ false
unfolding lex_before
lex_before_trans a b [] h k = refl
lex_before_trans a [] (z ∷ c) h k = absurd (cc)
lex_before_trans [] (y ∷ b) (z ∷ c) h k = absurd (cc)
lex_before_trans (x ∷ a) (y ∷ b) (z ∷ c) h k = ground (arith, lex_before_trans a b c)

pub lex_before_asym : (a b : List ℕ) → lex_before a b ≡ true → lex_before b a ≡ false
unfolding lex_before
lex_before_asym a [] h = absurd (cc)
lex_before_asym [] (y ∷ b) h = refl
lex_before_asym (x ∷ a) (y ∷ b) h = ground (arith, lex_before_asym a b)

-- "not before" is transitive, and holds one way or the other.
pub text_before_trans :
    (a b c : String) → text_before a b ≡ false → text_before b c ≡ false → text_before a c ≡ false
unfolding text_before
text_before_trans a b c h k = lex_before_trans (code_points a) (code_points b) (code_points c) h k

pub text_before_asym : (a b : String) → text_before a b ≡ true → text_before b a ≡ false
unfolding text_before
text_before_asym a b h = lex_before_asym (code_points a) (code_points b) h

lex_before_irrefl : (a : List ℕ) → lex_before a a ≡ false
unfolding lex_before
lex_before_irrefl [] = refl
lex_before_irrefl (x ∷ a) = ground (arith, lex_before_irrefl a)

pub text_before_irrefl : (a : String) → text_before a a ≡ false
unfolding text_before
text_before_irrefl a = lex_before_irrefl (code_points a)
