-- ===== src/SelfUpdate/Ordering.antt =====
-- version-compare.ts, isNewerVersion: the versions are in a strict order.
use agx.Prelude.{
  ℕ, String, ◌≡◌, sym, ap, ◌∙◌, some, true, false, List, [], ◌∷◌, arith, Option-cases, inl, inr,
}
use agx.SelfUpdate.Versions.{parse_numeric_fields, newer_fields, is_newer_version}

newer_fields_asym : (a b : List ℕ) → newer_fields a b ≡ true → newer_fields b a ≡ false
unfolding newer_fields
newer_fields_asym [] [] e = absurd (cc)
newer_fields_asym [] (y ∷ b) e = ground (arith, newer_fields_asym [] b)
newer_fields_asym (x ∷ a) [] e = ground (arith, newer_fields_asym a [])
newer_fields_asym (x ∷ a) (y ∷ b) e = ground (arith, newer_fields_asym a b)

newer_fields_trans :
    (a b c : List ℕ) → newer_fields a b ≡ true → newer_fields b c ≡ true → newer_fields a c ≡ true
unfolding newer_fields
newer_fields_trans [] [] c e f = absurd (cc)
newer_fields_trans [] (y ∷ b) [] e f = ground (arith, newer_fields_trans [] b [])
newer_fields_trans [] (y ∷ b) (z ∷ c) e f = ground (arith, newer_fields_trans [] b c)
newer_fields_trans (x ∷ a) [] [] e f = absurd (cc)
newer_fields_trans (x ∷ a) [] (z ∷ c) e f = ground (arith, newer_fields_trans a [] c)
newer_fields_trans (x ∷ a) (y ∷ b) [] e f = ground (arith, newer_fields_trans a b [])
newer_fields_trans (x ∷ a) (y ∷ b) (z ∷ c) e f = ground (arith, newer_fields_trans a b c)

newer_parsed :
    (remote current : String)
    → is_newer_version remote current ≡ true
    → (r : List ℕ) × (c : List ℕ) × (parse_numeric_fields remote ≡ some r)
      × (parse_numeric_fields current ≡ some c)
      × (newer_fields r c ≡ true)
unfolding is_newer_version
newer_parsed remote current e = elim (Option-cases (parse_numeric_fields remote)) [
  | inl bad ↦ absurd (ground arith)
  | inr (r, read) ↦ elim (Option-cases (parse_numeric_fields current)) [
    | inl bad ↦ absurd (ground arith)
    | inr (c, known) ↦ (r, c, read, known, ground arith)
  ]
]

-- "Newer" is a strict order on versions: no two versions are newer than each other, so none is newer
-- than itself, and a version newer than a newer one is newer. No chain of updates comes back.
pub is_newer_version_lem :
    (a b c : String)
    → is_newer_version a b ≡ true
    → (is_newer_version b a ≡ false) × (is_newer_version b c ≡ true → is_newer_version a c ≡ true)
unfolding is_newer_version
is_newer_version_lem a b c e =
    let (x, y, read_a, read_b, newer) = newer_parsed a b e in
    (
      rw (read_a, read_b) (newer_fields_asym x y newer),
      (λ f.
          let (y', z, read_b', read_c, newer') = newer_parsed b c f in
          let same : y ≡ y' = some-inj (sym read_b ∙ read_b') in
          rw (read_a, read_c)
            (newer_fields_trans x y z newer (ap (λ t. newer_fields t z) same ∙ newer'))),
    )
  where
    some-inj : {a b : List ℕ} → some a ≡ some b → a ≡ b
    some-inj e = cc
