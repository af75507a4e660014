-- ===== src/Prelude/Exec.antt =====
-- Calls that change a state and may throw; what was written before a throw stays written.
use Prim.Native.String.{String}
use mathlib.Core.Path.{◌≡◌, refl}
use mathlib.Core.Option.{Option, none, some}
use mathlib.Core.Bool.{Bool, true, false}
use mathlib.Core.Logic.{◌⊎◌, inl, inr}
use agx.Prelude.Tests.{if◌then◌else◌}
use agx.Prelude.Outcome.{Outcome, returned, thrown}

abbrev pub Exec {ℓ} : Type ℓ → Type ℓ → Type ℓ
Exec S A = S → Outcome A × S

module _ {ℓ} {S A : Type ℓ} where
  abbrev pub pure : A → Exec S A
  pure a s = (returned a, s)

  abbrev pub throw : String → Exec S A
  throw e s = (thrown e, s)

  abbrev caught : Outcome A × S → Outcome (Option A) × S
  caught (returned a, s) = (returned (some a), s)
  caught (thrown e, s) = (returned none, s)

  -- `try { … } catch { … }`, where the handler does not look at the error
  abbrev pub attempt : Exec S A → Exec S (Option A)
  attempt m s = caught (m s)

module _ {ℓ} {S A : Type ℓ} where
  abbrev finished : Outcome A → Outcome {ℓ} Unit × S → Outcome A × S
  finished r (returned u, s) = (r, s)
  finished r (thrown e, s) = (thrown e, s)

  -- `try { m } finally { n }`
  abbrev pub finally_do : Exec S A → Exec S (Unit {ℓ}) → Exec S A
  finally_do m n s = let (r, t) = m s in finished r (n t)

module _ {ℓ} {S A B : Type ℓ} where
  abbrev pub continue : Outcome A × S → (A → Exec S B) → Outcome B × S
  continue (returned a, s) f = f a s
  continue (thrown e, s) f = (thrown e, s)

  infixl 5 ◌>>=◌
  abbrev pub ◌>>=◌ : Exec S A → (A → Exec S B) → Exec S B
  ◌>>=◌ m f s = continue (m s) f

  -- Inversion of a bind that returns.
  pub >>=-eq-returned :
      (m : Exec S A) (f : A → Exec S B) {b : B} {s s' : S}
      → (m >>= f) s ≡ (returned b, s')
      → (a : A) × (t : S) × (m s ≡ (returned a, t)) × (f a t ≡ (returned b, s'))
  >>=-eq-returned m f {b} {s} {s'} e = split (m s) refl e
    where
      split :
          (r : Outcome A × S)
          → m s ≡ r
          → continue r f ≡ (returned b, s')
          → (a : A) × (t : S) × (m s ≡ (returned a, t)) × (f a t ≡ (returned b, s'))
      split (returned a, t) r h = (a, t, r, h)
      split (thrown x, t) r h = absurd (cc)

module _ {ℓ} {S A : Type ℓ} where
  -- A conditional call takes one of its branches.
  pub if-returned :
      (t : Bool) (m n : Exec S A) {x : Outcome A × S} {s : S}
      → if◌then◌else◌ {A = Exec S A} t m n s ≡ x
      → ((t ≡ true) × (m s ≡ x)) ⊎ ((t ≡ false) × (n s ≡ x))
  if-returned true m n e = inl (refl, e)
  if-returned false m n e = inr (refl, e)

module _ {ℓ} {S A : Type ℓ} where
  -- Inversion of `try … finally` that returns.
  pub finally_do-returned :
      (m : Exec S A) (n : Exec S (Unit {ℓ})) {a : A} {s s' : S}
      → finally_do m n s ≡ (returned a, s')
      → (t : S) × (m s ≡ (returned a, t)) × (n t ≡ (returned tt, s'))
  finally_do-returned m n {a} {s} {s'} e = split (m s) refl e
    where
      split :
          (r : Outcome A × S)
          → m s ≡ r
          → finished r.0 (n r.1) ≡ (returned a, s')
          → (t : S) × (m s ≡ (returned a, t)) × (n t ≡ (returned tt, s'))
      split (r, t) f h = last (n t) refl h
        where
          last :
              (q : Outcome {ℓ} Unit × S)
              → n t ≡ q
              → finished r q ≡ (returned a, s')
              → (t : S) × (m s ≡ (returned a, t)) × (n t ≡ (returned tt, s'))
          last (returned u, u') g k = (t, cc, cc)
          last (thrown x, u') g k = absurd (cc)

module _ {ℓ} {S A B : Type ℓ} where
  -- Inversion of a call whose value is mapped.
  pub pure-returned :
      (m : Exec S A) (f : A → B) {b : B} {s s' : S}
      → (m >>= λ a. pure (f a)) s ≡ (returned b, s')
      → (a : A) × (m s ≡ (returned a, s')) × (f a ≡ b)
  pure-returned m f {b} {s} {s'} e = split (m s) refl e
    where
      split :
          (r : Outcome A × S)
          → m s ≡ r
          → continue r (λ a. pure (f a)) ≡ (returned b, s')
          → (a : A) × (m s ≡ (returned a, s')) × (f a ≡ b)
      split (returned a, t) g h = (a, cc, cc)
      split (thrown x, t) g h = absurd (cc)
