-- ===== src/Activation/Polynomial.antt =====
-- activation.ts, computePlanHash: the hash of a text as a polynomial in its UTF-16 units.
use native.Mathlib.Nat.{
  mod-add-div', add-mul-mod_self_right, pow-suc, mod-lt, mod-eq_of_lt, add-mul, mul_assoc, mul_comm,
}
use agx.Prelude.{ℕ, ◌+◌, ◌*◌, ◌/◌, ◌%◌, ◌^◌, ◌<◌, ◌≡◌, sym, ap, ◌∙◌, List, [], ◌∷◌, length, arith}
use agx.Activation.Hash.{hash_units}

abbrev pub polynomial : List ℕ → ℕ
polynomial [] = 0
polynomial (unit ∷ rest) = unit * 31 ^ length rest + polynomial rest

module _ (m : ℕ) where
  mod-times-plus : (a k b : ℕ) → (a % m * k + b) % m ≡ (a * k + b) % m
  mod-times-plus a k b =
      let split : a * k + b ≡ (a % m * k + b) + a / m * k * m =
        ap (λ x. x * k + b) (sym (mod-add-div' a m)) ∙ omega arith in
      sym (ap (λ x. x % m) split ∙ add-mul-mod_self_right (a % m * k + b) (a / m * k) m)

horner : (h u p b q : ℕ) → q ≡ p * 31 → (31 * h + u) * p + b ≡ h * q + (u * p + b)
horner h u p b q e =
    ap (λ x. x + b) (add-mul (31 * h) u p)
    ∙ grind (arith, mul_assoc h p 31, mul_comm p 31, ap (λ x. h * x) e, mul_assoc 31 h p)

hash_units_from :
    (h : ℕ) (units : List ℕ)
    → h < 2 ^ 32
    → hash_units h units ≡ (h * 31 ^ length units + polynomial units) % 2 ^ 32
unfolding hash_units
hash_units_from h [] lt = sym (ap (λ x. x % 2 ^ 32) (omega arith) ∙ mod-eq_of_lt lt)
hash_units_from h (unit ∷ rest) lt =
    let P = 31 ^ length rest in
    let next = 31 * h + unit in
    hash_units_from (next % 2 ^ 32) rest (mod-lt next (omega arith))
    ∙ mod-times-plus (2 ^ 32) next P (polynomial rest)
    ∙ ap (λ x. x % 2 ^ 32) (horner h unit P (polynomial rest) _ (pow-suc 31 (length rest)))

-- The hash, started at zero, is the polynomial at 31 with the units as coefficients, the last unit
-- the constant one, modulo 2 ^ 32: no intermediate wrap-around is lost.
pub hash_units_lem : (units : List ℕ) → hash_units 0 units ≡ polynomial units % 2 ^ 32
hash_units_lem units = hash_units_from 0 units (omega arith) ∙ ap (λ x. x % 2 ^ 32) (omega arith)
