-- ===== src/Journal/Numbering.antt =====
-- operation-journal.ts: the steps of a journal are numbered from 1, so a number names one step.
use agx.Prelude.{
  ℕ, suc, ◌<◌, String, ◌≡◌, refl, Bool, some, List, [], ◌∷◌, map, arith, find, nat_eq, string_eq,
  if◌then◌else◌,
}
use agx.Journal.{Step, StepKind, update_at}

abbrev pub NumberedFrom : ℕ → List Step → Type 0
NumberedFrom n [] = Unit
NumberedFrom n (s ∷ steps) = (s.sequence ≡ n) × NumberedFrom (suc n) steps

-- What was planned of a step.
abbrev pub planned : Step → ℕ × StepKind × String
planned s = (s.sequence, s.kind, s.resource)

-- The first element that passes the test is changed.
unfoldable pub change_first {ℓ} : {A : Type ℓ} → (A → Bool) → (A → A) → List A → List A
change_first p f [] = []
change_first p f (x ∷ xs) = if p x then f x ∷ xs else x ∷ change_first p f xs

pub update_at-below :
    (n m : ℕ) (f : Step → Step) (steps : List Step)
    → NumberedFrom m steps
    → n < m
    → update_at n f steps ≡ steps
unfolding update_at
update_at-below n m f [] h lt = refl
update_at-below n m f (s ∷ steps) (e, h) lt =
    ground (arith, update_at-below n (suc m) f steps h (omega arith))

find-above :
    (p : Step → Bool) (m : ℕ) (steps : List Step) (s : Step)
    → NumberedFrom m steps
    → find p steps ≡ some s
    → m < suc s.sequence
find-above p m [] s h e = absurd (cc)
find-above p m (x ∷ steps) s (num, h) e = ground (arith, find-above p (suc m) steps s)

-- Changing the step with the found step's number changes the found step.
pub update_at-eq-change_first :
    (p : Step → Bool) (f : Step → Step) (m : ℕ) (steps : List Step) (s : Step)
    → NumberedFrom m steps
    → find p steps ≡ some s
    → update_at s.sequence f steps ≡ change_first p f steps
unfolding update_at change_first
update_at-eq-change_first p f m [] s h e = refl
update_at-eq-change_first p f m (x ∷ steps) s (num, h) e = ground (
  arith,
  update_at-below s.sequence (suc m) f steps h,
  find-above p (suc m) steps s h,
  update_at-eq-change_first p f (suc m) steps s h,
)

pub find-change :
    (p : Step → Bool) (f : Step → Step) (steps : List Step) (s : Step)
    → find p steps ≡ some s
    → planned (f s) ≡ planned s
    → map planned (change_first p f steps) ≡ map planned steps
unfolding change_first
find-change p f [] s e k = refl
find-change p f (x ∷ steps) s e k = ground (arith, find-change p f steps s)

pub NumberedFrom-of_planned :
    (m : ℕ) (a b : List Step) → map planned a ≡ map planned b → NumberedFrom m b → NumberedFrom m a
NumberedFrom-of_planned m [] b e h = tt
NumberedFrom-of_planned m (x ∷ a) [] e h = absurd (cc)
NumberedFrom-of_planned m (x ∷ a) (y ∷ b) e (num, h) =
    (ground arith, NumberedFrom-of_planned (suc m) a b (ground arith) h)
